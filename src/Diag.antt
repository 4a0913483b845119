-- ===== src/Diag.antt =====
-- src/diag.rs: source spans and diagnostics. What the passes of the compiler make of a diagnostic is
-- its span, its stable code and its semantic path; Render adds the prose.
pub mod Render
use vibelang.Base.{ℕ, Text, Option, none, some}

pub record Span : Type 0 where
  pub file : ℕ
  pub line : ℕ
  pub col : ℕ
  pub len : ℕ

pub record Diag : Type 0 where
  pub span : Span
  pub code : Text
  pub path : Option Text

-- `Diag::error`.
abbrev pub error : Span → Text → Diag
error s c = record { span = s; code = c; path = none }

abbrev pub with_path : Text → Diag → Diag
with_path p d = record d { path = some p }
