-- ===== src/Net/Serve/Cores.antt =====
-- core/src/net.rs: what `serve_on_cores` starts, and what it leaves behind when a core fails.
use mathlib.Core.List.{append-nil, append_assoc}
use aetherflow.Base.{ℕ, ◌≡◌, refl, sym, ap, ◌∙◌, false, some, List, [], ◌∷◌, ◌++◌, map}
use aetherflow.Errors.{Result, ok}
use aetherflow.Net.Serve.{
  ServeOptions, ListenerCalls, start_core, pinned, start_cores, with_handle, serve_on_cores,
}

-- All the cores start.
abbrev pub AllStart : (ℕ → Result (Unit {0}) ℕ) → List ℕ → Type 0
AllStart start [] = Unit
AllStart start (core ∷ cores) = (start core ≡ ok tt) × AllStart start cores

start_cores-append :
    (start : ℕ → Result (Unit {0}) ℕ) (opts : ServeOptions) (cores more : List ℕ)
    (joins : List ServeOptions)
    → AllStart start cores
    → start_cores start opts (cores ++ more) joins
      ≡ start_cores start opts more (joins ++ map (pinned opts) cores)
unfolding start_cores
start_cores-append start opts [] more joins all = rw (append-nil joins) refl
start_cores-append start opts (core ∷ cores) more joins (started, all) =
    rw (started, start_cores)
      (start_cores-append start opts cores more (joins ++ (pinned opts core ∷ [])) all
        ∙ ap (start_cores start opts more)
            (append_assoc joins (pinned opts core ∷ []) (map (pinned opts) cores)))

-- If the address resolves and every listener and thread starts, the server has one reactor for each
-- core in the given order, pinned to it and with the other options as given.
pub serve_on_cores_lem :
    (addr core : ℕ) (listeners : ℕ → ListenerCalls) (spawns : ℕ → Result (Unit {0}) ℕ)
    (opts : ServeOptions) (cores : List ℕ)
    → AllStart (start_core listeners spawns) (core ∷ cores)
    → serve_on_cores (ok (some addr)) listeners spawns opts (core ∷ cores)
      ≡ some (
        ok (record { addr = addr; stop = false; joins = map (pinned opts) (core ∷ cores) }),
        map (pinned opts) (core ∷ cores),
      )
unfolding serve_on_cores start_cores
serve_on_cores_lem addr core listeners spawns opts cores all =
    let start = start_core listeners spawns in
    let e = start_cores-append start opts (core ∷ cores) [] [] all in
    ap (λ r. some (with_handle addr r))
      (ap (λ l. start_cores start opts l []) (sym (append-nil (core ∷ cores))) ∙ e)
