-- ===== src/Tests/Dispatch.antt =====
-- Short runs of a dispatcher.
use minerva_server.Std.HashMap
use minerva_server.Ids.{CommandId, CommandId_discrete, command_id_key, next}
use minerva_server.Commands.{Command, failure}
use minerva_server.Commands.Dispatcher.{
  Action, new, allocate, allocates, begin, drop_guard, complete, begins, ends, completes, cancels,
  perform, perform_all,
}
use minerva_server.Commands.InFlight.{in_flight, among, pending-among, pending-in_flight}
use minerva_server.Commands.Told.{pending-dispatched}
use minerva_server.Tests.Orders.{order_to_alpha, first_id}
use minerva_server.Prelude.{◌≡◌, refl, some, List, [], ◌∷◌, true, get_elem?, ℕ_discrete}

abbrev second_id : CommandId
second_id = record { value = 1 }

-- One of two commands ends without an answer, the other is answered late.
abbrev busy : List Action
busy =
    allocates
    ∷ allocates
    ∷ begins first_id order_to_alpha
    ∷ begins second_id order_to_alpha
    ∷ ends first_id
    ∷ completes first_id (failure "late")
    ∷ []

abbrev done : List Action
done = allocates ∷ begins first_id order_to_alpha ∷ cancels ∷ ends first_id ∷ []

second_pending : HashMap.get (perform_all new busy).pending second_id ≡ some 1
unfolding perform_all perform allocate begin drop_guard complete next HashMap.insert HashMap.get
    HashMap.remove CommandId_discrete ℕ_discrete
second_pending = refl

nothing_in_flight : in_flight new [] done ≡ []
unfolding allocate begin next CommandId_discrete ℕ_discrete
nothing_in_flight = refl

pending-among_example : among (in_flight new [] busy) second_id ≡ true
pending-among_example = pending-among busy second_id 1 second_pending

pending-in_flight_example : (perform_all new done).pending ≡ []
pending-in_flight_example = pending-in_flight done nothing_in_flight

pending-dispatched_example :
    (command : Command) × (get_elem? (perform_all new busy).dispatched 1
      ≡ some (second_id, command))
pending-dispatched_example = pending-dispatched busy second_id 1 second_pending
