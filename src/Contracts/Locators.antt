-- ===== src/Contracts/Locators.antt =====
-- The locators of specification/models_v1.1(1).py and the comparison of two of them by their dumps.
use pruebas_personalizadas.Prelude.Common.{
  ℕ, String, Option, List, [], ◌∷◌, Bool, true, false, ◌&&◌,
}
use pruebas_personalizadas.Prelude.Eq.{◌==◌, nat_eq, string_eq, bool_eq, option_eq, list_eq}
use pruebas_personalizadas.Prelude.Floats.{Floats}

pub data SourceLocator (F : Type 0) : Type 0 where
  page_bbox : (page : ℕ) (bbox : List F) (block_index : Option ℕ) → SourceLocator F
  document_path :
      (paragraph_index : Option ℕ) (heading_path : List String) (table_index row column : Option ℕ)
      → SourceLocator F
  slide_shape : (slide_number : ℕ) (shape_id : Option String) (notes : Bool) → SourceLocator F
  sheet_range : (workbook : Option String) (sheet range_a1 : String) → SourceLocator F
  code_span :
      (path : String) (start_line end_line : ℕ) (start_column end_column : Option ℕ)
      (symbol : Option String)
      → SourceLocator F
  notebook_cell :
      (path cell_id : String) (cell_index : ℕ) (output_index : Option ℕ) → SourceLocator F
  image_region : (path : String) (bbox : List F) (coordinate_space : String) → SourceLocator F

module _ {F : Type 0} (fl : Floats F) where
  same_floats : List F → List F → Bool
  same_floats [] [] = true
  same_floats (x ∷ xs) (y ∷ ys) = fl.same x y && same_floats xs ys
  same_floats _ _ = false

  -- `left.model_dump(mode="json") == right.model_dump(mode="json")`
  unfoldable pub same_locator : SourceLocator F → SourceLocator F → Bool
  unfolding same_floats
  same_locator (SourceLocator.page_bbox p b i) (SourceLocator.page_bbox p' b' i') =
      p == p' && same_floats b b' && i == i'
  same_locator (SourceLocator.document_path p h t r c)
        (SourceLocator.document_path p' h' t' r' c') =
      p == p' && h == h' && t == t' && r == r' && c == c'
  same_locator (SourceLocator.slide_shape n s o) (SourceLocator.slide_shape n' s' o') =
      n == n' && s == s' && o == o'
  same_locator (SourceLocator.sheet_range w s r) (SourceLocator.sheet_range w' s' r') =
      w == w' && s == s' && r == r'
  same_locator (SourceLocator.code_span p s e c d y) (SourceLocator.code_span p' s' e' c' d' y') =
      p == p' && s == s' && e == e' && c == c' && d == d' && y == y'
  same_locator (SourceLocator.notebook_cell p c i o) (SourceLocator.notebook_cell p' c' i' o') =
      p == p' && c == c' && i == i' && o == o'
  same_locator (SourceLocator.image_region p b c) (SourceLocator.image_region p' b' c') =
      p == p' && same_floats b b' && c == c'
  same_locator _ _ = false
