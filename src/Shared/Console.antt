-- ===== src/Shared/Console.antt =====
-- What a process prints, to its streams, beside the world that its calls change.
use two_services.Base.{String, List, [], ◌∷◌, ◌++◌}

pub record Console (W : Type 0) : Type 0 where
  pub printed : List String
  pub world : W

module _ {W : Type 0} where
  -- what stands in the output, after what stood there before
  abbrev pub say : String → Console W → Console W
  say text c = record c { printed = c.printed ++ text ∷ [] }

  -- a call that prints nothing
  abbrev pub in_world : {A : Type 0} → (W → A × W) → Console W → A × Console W
  in_world m c = let (a, w) = m c.world in (a, record c { world = w })

  -- a function that only prints
  abbrev pub on_printed : {A : Type 0} → (List String → A × List String) → Console W → A × Console W
  on_printed m c = let (a, printed) = m c.printed in (a, record c { printed = printed })
