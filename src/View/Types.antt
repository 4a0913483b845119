-- ===== src/View/Types.antt =====
-- src/view.rs, `ty`, `ty_app` and `ty_atom`: one printer, with the place of the type as an argument.
use vibelang.Base.{Text, [], ◌∷◌, ◌++◌, codes}
use vibelang.Ast.{Ty, Tys}
use vibelang.Parser.Spelling.{Level, under_ref}

abbrev pub bracketed : Text → Text
bracketed s = b'(' ∷ (s ++ b')' ∷ [])

-- `ty_atom` puts what `ty_app` prints in parentheses.
abbrev pub app_text : Level → Text → Text
app_text Level.atom s = bracketed s
app_text _ s = s

-- `ty_app` and `ty_atom` put what `ty` prints in parentheses.
abbrev pub top_text : Level → Text → Text
top_text Level.top s = s
top_text _ s = bracketed s

unfoldable mutual
  -- `ty` at `top`, `ty_app` at `app` and `ty_atom` at `atom`.
  pub print : Level → Ty → Text
  print l (Ty.con n Tys.nil) = n
  print l (Ty.con n (Tys.cons t ts)) = app_text l (n ++ arg_texts (Tys.cons t ts))
  print l (Ty.var n) = n
  print l (Ty.fun a b) = top_text l (print Level.app a ++ (codes " -> " ++ print Level.top b))
  print l (Ty.ref t) = b'&' ∷ print (under_ref l) t
  print l (Ty.eff t) = app_text l (codes "E! " ++ print Level.app t)
  print l (Ty.tuple Tys.nil) = bracketed []
  print l (Ty.tuple (Tys.cons t ts)) = bracketed (print Level.top t ++ part_texts ts)

  -- `join(" ")`, with the space before it.
  pub arg_texts : Tys → Text
  arg_texts Tys.nil = []
  arg_texts (Tys.cons t ts) = b' ' ∷ (print Level.atom t ++ arg_texts ts)

  -- `join(", ")`, without the first part.
  pub part_texts : Tys → Text
  part_texts Tys.nil = []
  part_texts (Tys.cons t ts) = b',' ∷ b' ' ∷ (print Level.top t ++ part_texts ts)
