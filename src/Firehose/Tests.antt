-- ===== src/Firehose/Tests.antt =====
-- A bus with two clients, a writer that falls behind, and the theorem at such a writer.
use materios_gateway.Prelude.{ℕ, ◌≡◌, refl, true, none, some, List, [], ◌∷◌, map}
use materios_gateway.Firehose.{
  rpc_disconnected, rpc_reconnected, new_writer, push, flush, dispose, Client, subscribe,
  unsubscribe, publish,
}
use materios_gateway.Firehose.Refine.{Action, pushing, ticking, run, spec_run, run_refines}

abbrev actions : List Action
actions =
    pushing (rpc_disconnected 1)
    ∷ pushing (rpc_reconnected 2)
    ∷ pushing (rpc_disconnected 3)
    ∷ ticking
    ∷ ticking
    ∷ []

newest_two :
    run actions (new_writer 2)
    ≡ none ∷ none ∷ none ∷ some (rpc_reconnected 2 ∷ rpc_disconnected 3 ∷ []) ∷ none ∷ []
unfolding run new_writer push flush
newest_two = refl

two_behind : (push (rpc_disconnected 3) (push (rpc_disconnected 2) (new_writer 1))).dropped ≡ 1
unfolding new_writer push
two_behind = refl

silent : flush (dispose (push (rpc_disconnected 3) (new_writer 1))) ≡ (none, dispose (new_writer 1))
unfolding new_writer push flush dispose
silent = refl

abbrev client : ℕ → Client
client n = record {
  id = n;
  writer = record { soft_cap = 1; queue = []; dropped = 0; disposed = true };
}

one_left :
    map
      (λ c. c.id)
      (publish
        (rpc_disconnected 4)
        (unsubscribe 1 (subscribe (client 2) (subscribe (client 1) (subscribe (client 1) [])))))
    ≡ 2 ∷ []
unfolding publish push subscribe unsubscribe
one_left = refl

run_refines_example : run actions (new_writer 2) ≡ spec_run 2 actions []
run_refines_example = run_refines 2 actions
