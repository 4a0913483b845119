-- ===== src/Diag/Render/Examples.antt =====
-- src/diag.rs on a diagnostic with a counterexample that has a quote and a control character.
use vibelang.Base.{some, [], ◌∷◌, ◌++◌, codes, decimal, ◌≡◌, refl}
use vibelang.Base.Hex.{hex}
use vibelang.Diag.{Span, error, with_path}
use vibelang.Diag.Render.{
  Report, Files, report, with_witness, add, render, render_json, prose, at_path,
}
use vibelang.Diag.Render.Json.{read_object}
use vibelang.Diag.Render.Json.Members.{members, read_object-render_json}

abbrev here : Span
here = record { file = 0; line = 2; col = 4; len = 3 }

abbrev files : Files
files =
    (add (codes "a.vibe") (codes "f x =" ++ 13 ∷ 10 ∷ codes "  g xyz")
      (record { names = []; texts = [] })).0

abbrev demo : Report
demo = with_witness (b'"' ∷ 1 ∷ []) (report here (codes "name.unknown") (codes "no xyz"))

demo_json :
    render_json demo files
    ≡ codes
        "{\"path\":\"a.vibe:2:5\",\"code\":\"name.unknown\",\"msg\":\"no xyz\",\"file\":\"a.vibe\",\"line\":2,\"col\":5,\"witness\":\"\\\"\\u0001\"}"
unfolding render_json decimal hex
demo_json = refl

demo_prose :
    render (report here (codes "name.unknown") (codes "no xyz")) files prose
    ≡ codes "error[name.unknown]: no xyz"
      ++ 10
        ∷ (codes "  --> a.vibe:2:5"
            ++ 10 ∷ (codes "   |" ++ 10 ∷ (codes "   |   g xyz" ++ 10 ∷ codes "   |     ^^^")))
unfolding render decimal
demo_prose = refl

-- A path that is set is kept.
kept_path :
    at_path (codes "b") (at_path (codes "a") (error here (codes "c")))
    ≡ with_path (codes "a") (error here (codes "c"))
kept_path = refl

read_object-render_json_example : read_object (render_json demo files) ≡ some (members demo files)
read_object-render_json_example = read_object-render_json demo files
