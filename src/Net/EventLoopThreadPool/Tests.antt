-- ===== src/Net/EventLoopThreadPool/Tests.antt =====
-- windz/net/EventLoopThreadPool.cpp at concrete inputs.
use windz.Prelude.{◌≡◌, true, [], ◌∷◌, map, some, Returns, arith}
use windz.Net.EventLoopThreadPool.{EventLoopThreadPool}
use windz.Net.EventLoopThreadPool.Turns.{calls, calls-InTurn}

abbrev three : EventLoopThreadPool
three = record { started = true; next = 0; loops = 4 ∷ 5 ∷ 6 ∷ [] }

calls-InTurn_example :
    Returns (λ r. (r.0 ≡ map some (4 ∷ 5 ∷ 6 ∷ [])) × (r.1 ≡ three)) (calls 3 three)
calls-InTurn_example = calls-InTurn (4 ∷ 5 ∷ 6 ∷ []) (omega arith)
