-- ===== src/Base/Thread/Tests.antt =====
-- windz/base/Thread.cpp at concrete inputs.
use windz.Prelude.{ℕ, ◌≡◌, true, List, [], ◌∷◌, Returns}
use windz.Base.Thread.{new_thread, start, Actor, run}
use windz.Base.Thread.Started.{Told, start-Told}

abbrev print : ℕ → List ℕ
print n = n ∷ 32 ∷ []

abbrev actors : List Actor
actors = Actor.caller ∷ Actor.new_one ∷ Actor.spurious ∷ Actor.new_one ∷ []

start-Told_example :
    Returns
      (λ (created, t). (created ≡ true) × Told 7 print (run 7 print actors t))
      (start true (new_thread (119 ∷ [])))
start-Told_example = start-Told 7 print (119 ∷ []) actors
