-- ===== src/Platform/Life/Exits.antt =====
-- How the process ends: by an exit.
use flo_mimi.Prelude.{false, some, [], ◌∷◌, ◌++◌, List, ◌≡◌, Text, Error}
use flo_mimi.Platform.{Environment}
use flo_mimi.Platform.Life.{Event, error_logged, Ending, returned, exited, Libraries, address}

-- The process exits, with code 1, and its error is logged last.
abbrev pub ExitsLogged : Ending × List Event → Type 0
ExitsLogged (returned, es) = ⊥
ExitsLogged (exited n, es) =
    (n ≡ 1)
    × (what : Text) × (e : Error) × (earlier : List Event) × (es
        ≡ earlier ++ (error_logged what e ∷ []))

-- What ListenAndServe documents for a server that nothing shuts down: it returns an error, and this is
-- not http.ErrServerClosed.
abbrev pub IsServing : Libraries → Environment → Type 0
IsServing libraries getenv =
    (e : Error) × (libraries.serve (address libraries getenv) ≡ some e)
    × (libraries.is_server_closed e ≡ false)
