-- ===== src/Registration/Tests.antt =====
-- A driver who registers, whose event is delivered twice.
use inno_taxi.Base.{none, some, List, [], ◌∷◌, ◌++◌, ◌≡◌, refl}
use inno_taxi.Base.Lists.{All}
use inno_taxi.Driver.Repository.{Env, World, no_fault}
use inno_taxi.Driver.Claims.{HasUniqueUsers}
use inno_taxi.Registration.{Message, consume_claim, handle_driver_message}
use inno_taxi.Registration.Registered.{IsServed, consume-IsServed}

abbrev calm : Env
calm = record { database = λ l. no_fault; now = λ l. 7; fresh_id = λ l. "d9" }

abbrev empty_rank : World
empty_rank = record { drivers = []; commands = [] }

abbrev twice : List Message
twice =
    some (record { user_id = "u1"; role = "driver" })
    ∷ none
    ∷ some (record { user_id = "u2"; role = "user" })
    ∷ some (record { user_id = "u1"; role = "driver" })
    ∷ []

consume-IsServed_example :
    ((consume_claim (handle_driver_message calm) twice (empty_rank, [])).1 ≡ [] ++ twice)
    × HasUniqueUsers (consume_claim (handle_driver_message calm) twice (empty_rank, [])).0.drivers
    × All
        (IsServed (consume_claim (handle_driver_message calm) twice (empty_rank, [])).0.drivers)
        twice
consume-IsServed_example = consume-IsServed calm (λ l. refl) twice [] empty_rank tt
