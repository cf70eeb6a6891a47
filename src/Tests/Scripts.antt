-- ===== src/Tests/Scripts.antt =====
-- Concrete runs of player/src/sld.
use lavender.Base.{◌≡◌, ◌⊎◌, ◌↔◌, refl, true, false, some, codes, ◌++◌, ◌∷◌, arith}
use lavender.Base.{length, All}
use lavender.Sld.Numbers.{isspace}
use lavender.Sld.Loader.{load_content, loaded}
use lavender.Sld.Loader.Content.{load_content-line}
use lavender.Sld.Areas.{Area, areas_at_start, add_area, retrieve_tag, same_place}
use lavender.Sld.Areas.Laws.{IsTaken, retrieve_tag-add_area, add_area_fails}

load_content-line_example :
    load_content (codes " " ++ b'h' ∷ (codes "i" ++ 10 ∷ codes "next"))
    ≡ some (loaded 3 (codes "hi", 2))
unfolding isspace
load_content-line_example =
    load_content-line (codes " ") b'h' (codes "i") 10 (codes "next") (refl, tt) refl
      (refl, (refl, tt)) refl

abbrev button : Area
button = record { left = 10; top = 20; width = 5; height = 4; tag = 3 }

button_added : (add_area button areas_at_start).1 ≡ true
unfolding add_area same_place
button_added = refl

retrieve_tag-add_area_example : retrieve_tag (add_area button areas_at_start).0 12 21 ≡ 3
retrieve_tag-add_area_example =
    retrieve_tag-add_area button areas_at_start 12 21 button_added (omega arith) (omega arith)

add_area_fails_example :
    (((add_area button areas_at_start).1 ≡ false) ↔ All (IsTaken button) areas_at_start)
    × (((add_area button areas_at_start).1 ≡ true)
        ⊎ ((add_area button areas_at_start).0 ≡ areas_at_start))
    × (length (add_area button areas_at_start).0 ≡ 16)
add_area_fails_example = add_area_fails button areas_at_start
