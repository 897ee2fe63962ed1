-- ===== src/Platform/Life/Tests.antt =====
-- Starts of the process.
use flo_mimi.Prelude.{
  true, false, [], ◌∷◌, none, some, ◌≡◌, refl, Text, codes, Text-discrete, Error, ok, message,
}
use flo_mimi.Text.{trim_space}
use flo_mimi.Content.Connection.{opened, pinged, closed, new_app_db_repository, close_db}
use flo_mimi.Telemetry.Setup.{Shutdown, nothing, setup}
use flo_mimi.Platform.{Environment, env_or_default}
use flo_mimi.Platform.Life.{
  telemetry_started, telemetry_stopped, database, listened, error_logged, exited, Libraries,
  address, listen_and_serve, with_repository, stop_telemetry, main,
}
use flo_mimi.Platform.Life.Ends.{dsn_of, setup_of, still_open, main-returned, main-serve_failed}

-- No variable is set.
abbrev bare : Environment
bare name = []

abbrev taken : Error
taken = message (codes "listen tcp :8081: bind: address already in use")

abbrev well : Libraries
well = record {
  sdk = record { parse_url = λ t. none; new_exporter = λ o. none; merge_resource = λ s e. none };
  sql = record { open_error = λ dsn. none; ping_error = none; close_error = none };
  serve = λ addr. none;
  is_server_closed = λ e. false;
  shutdown_error = λ s. none;
}

abbrev blocked : Libraries
blocked = record well { serve = λ addr. some taken }

default_address : address well bare ≡ codes ":8081"
unfolding address env_or_default Text-discrete
default_address = refl

main-returned_test :
    (s : Shutdown) × (setup_of well bare ≡ ok s)
    × (well.sql.ping_error ≡ none)
    × ((main well bare).1
        ≡ telemetry_started s
          ∷ database (opened (dsn_of bare))
          ∷ database pinged
          ∷ listened (address well bare)
          ∷ database closed
          ∷ stop_telemetry well bare s)
unfolding main setup with_repository listen_and_serve new_app_db_repository close_db trim_space
    Text-discrete
main-returned_test = main-returned well bare {es = (main well bare).1} refl

main-serve_failed_test :
    (main blocked bare ≡ (
      exited 1,
      telemetry_started nothing
          ∷ database (opened (dsn_of bare))
          ∷ database pinged
          ∷ listened (address blocked bare)
          ∷ error_logged (codes "serve http") taken
          ∷ [],
    ))
    × (still_open false (main blocked bare).1 ≡ true)
unfolding setup trim_space Text-discrete
main-serve_failed_test =
    main-serve_failed blocked bare {s = nothing} {e = taken} refl refl refl refl refl

telemetry_shut_down : stop_telemetry well bare nothing ≡ telemetry_stopped nothing ∷ []
unfolding stop_telemetry
telemetry_shut_down = refl
