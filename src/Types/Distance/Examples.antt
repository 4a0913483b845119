-- ===== src/Types/Distance/Examples.antt =====
-- src/types.rs, `edit_distance` and `suggest` on misspelt names.
use vibelang.Base.{
  ◌≤◌, Text, true, false, none, some, List, [], ◌∷◌, ◌≡◌, refl, codes, In, here, there,
}
use vibelang.Types.Distance.{edit_distance, suggest, within, closer}
use vibelang.Types.Distance.Table.{distance, reverse, edit_distance-distance}
use vibelang.Types.Distance.Least.{Edits, edit_distance-Edits, edit_distance-le}
use vibelang.Types.Distance.Suggest.{suggest-In, suggest-closest, suggest-none}

length_three : edit_distance (codes "kitten") (codes "sitting") ≡ 3
unfolding edit_distance
length_three = refl

edit_distance-Edits_example :
    Edits (codes "maps") (codes "map") (edit_distance (codes "maps") (codes "map"))
edit_distance-Edits_example = edit_distance-Edits (codes "maps") (codes "map")

abbrev one_deleted : Edits (codes "maps") (codes "map") 1
one_deleted = Edits.keep (Edits.keep (Edits.keep (Edits.delete Edits.nothing)))

edit_distance-le_example : edit_distance (codes "maps") (codes "map") ≤ 1
edit_distance-le_example = edit_distance-le (codes "maps") (codes "map") 1 one_deleted

edit_distance-distance_example :
    edit_distance (codes "maps") (codes "map")
    ≡ distance (reverse (codes "maps") []) (reverse (codes "map") [])
edit_distance-distance_example = edit_distance-distance (codes "maps") (codes "map")

abbrev names : List Text
names = codes "filter" ∷ codes "max" ∷ codes "map" ∷ []

suggested : suggest (codes "mapp") names ≡ some (codes "map")
unfolding suggest
suggested = refl

suggest-In_example : In (codes "map") names × (within (codes "mapp") (codes "map") ≡ true)
suggest-In_example = suggest-In (codes "mapp") names (codes "map") suggested

max_within : within (codes "mapp") (codes "max") ≡ true
unfolding within
max_within = refl

suggest-closest_example : closer (codes "mapp") (codes "max") (codes "map") ≡ false
suggest-closest_example =
    suggest-closest (codes "mapp") names (codes "map") (codes "max") suggested (there here)
      max_within

none_suggested : suggest (codes "q") (codes "filter" ∷ []) ≡ none
unfolding suggest
none_suggested = refl

suggest-none_example : within (codes "q") (codes "filter") ≡ false
suggest-none_example =
    suggest-none (codes "q") (codes "filter" ∷ []) (codes "filter") none_suggested here
