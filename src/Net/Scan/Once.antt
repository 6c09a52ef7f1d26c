-- ===== src/Net/Scan/Once.antt =====
-- core/src/net.rs: the turns of the scanning reactor end, and each connection is closed once.
use mathlib.Core.Path.{subst}
use aetherflow.Base.{
  ℕ, zero, suc, ◌+◌, ◌≤◌, ◌<◌, ◌≡◌, refl, sym, inl, inr, Bool, true, false, Option, some, List, [],
  ◌∷◌, arith, Option-cases, length, get_elem?, length-set, lt_of_get_elem?,
}
use aetherflow.Base.AllOf.{AllOf, AllOf-get_elem?, AllOf-set, AllOf-snoc}
use aetherflow.Net.{Connection}
use aetherflow.Net.Conn.{
  Socket, Read, got, read_blocked, read_interrupted, read_failed, Conn, open_conn, service,
  take_read,
}
use aetherflow.Net.Closing.{
  Keeps, IsEnd, IsPause, Served, service-Served, counted, MadeUnclosed, NotClosed, ClosedOnce,
  counted-Keeps,
}
use aetherflow.Net.Scan.{
  Accept, accepted, accept_blocked, accept_interrupted, accept_failed, Reactor, Scan, keep_or_drop,
  on_accept, on_read, accept_loop, read_conn, step_scan, scan, turn_scan, scan_reactor, no_conns,
}
use aetherflow.System.Core.Removal.{AllOf-swap_remove, length-swap_remove}

module _ {S : Type 0} (Open Closed : Conn S → Type 0) where
  -- Every connection of the reactor is open, and every one that was dropped is closed.
  abbrev pub IsClean : List (Conn S) → List (Conn S) → Type 0
  IsClean conns gone = AllOf Open conns × AllOf Closed gone

  -- The reactor's turn, or its turns, end in a clean reactor.
  abbrev pub StaysClean : Option (Reactor S) → Type 0
  StaysClean o = (r : Reactor S) × (o ≡ some r) × IsClean r.conns r.gone

module _ {S : Type 0} (Fresh : S → Socket → Type 0) where
  -- What is known of the handlers that the factory makes.
  abbrev pub MakesFresh : List (Accept S) → Type 0
  MakesFresh [] = Unit
  MakesFresh (accepted nonblocking made stream ∷ es) = Fresh made stream × MakesFresh es
  MakesFresh (accept_blocked ∷ es) = MakesFresh es
  MakesFresh (accept_interrupted ∷ es) = MakesFresh es
  MakesFresh (accept_failed ∷ es) = MakesFresh es

  abbrev pub AllMakeFresh : List (List (Accept S)) → Type 0
  AllMakeFresh [] = Unit
  AllMakeFresh (es ∷ turns) = MakesFresh es × AllMakeFresh turns

module _ {S : Type 0} (h : Connection S) (Fresh : S → Socket → Type 0)
    (Open Closed : Conn S → Type 0) (keeps : Keeps h Fresh Open Closed) where
  keep_or_drop-IsClean :
      (r : Reactor S) (s : Conn S × Bool)
      → IsClean Open Closed r.conns r.gone
      → Served Open Closed s
      → IsClean Open Closed (keep_or_drop r s).conns (keep_or_drop r s).gone
  keep_or_drop-IsClean r (c, true) (o, d) served = (o, AllOf-snoc _ r.gone c d served)
  keep_or_drop-IsClean r (c, false) (o, d) served = (AllOf-snoc _ r.conns c o served, d)

  on_accept-IsClean :
      (made : S) (stream : Socket) (r : Reactor S)
      → IsClean Open Closed r.conns r.gone
      → Fresh made stream
      → IsClean Open Closed (on_accept h made stream r).conns (on_accept h made stream r).gone
  on_accept-IsClean made stream r clean o =
      keep_or_drop-IsClean r (service h (open_conn h made stream)) clean (
        service-Served h Fresh Open Closed keeps (open_conn h made stream)
          (keeps.opens made stream o))

  accept_loop-IsClean :
      (es : List (Accept S)) (r : Reactor S)
      → MakesFresh Fresh es
      → IsClean Open Closed r.conns r.gone
      → IsClean Open Closed (accept_loop h es r).conns (accept_loop h es r).gone
  unfolding accept_loop
  accept_loop-IsClean [] r makes clean = clean
  accept_loop-IsClean (accepted true made stream ∷ es) r (o, makes) clean =
      accept_loop-IsClean es (on_accept h made stream r) makes
        (on_accept-IsClean made stream r clean o)
  accept_loop-IsClean (accepted false made stream ∷ es) r (o, makes) clean =
      accept_loop-IsClean es r makes clean
  accept_loop-IsClean (accept_blocked ∷ es) r makes clean = clean
  accept_loop-IsClean (accept_interrupted ∷ es) r makes clean = accept_loop-IsClean es r makes clean
  accept_loop-IsClean (accept_failed ∷ es) r makes clean = clean

  on_read-Served :
      (c : Conn S) (r : Read)
      → (take_read c).0 ≡ r
      → Open c
      → Served Open Closed (on_read h r (take_read c).1)
  on_read-Served c (got []) e o = keeps.ends c (subst IsEnd (sym e) tt) o
  on_read-Served c (got (b ∷ bs)) e o =
      service-Served h Fresh Open Closed keeps _ (keeps.receives c b bs e o)
  on_read-Served c read_blocked e o =
      service-Served h Fresh Open Closed keeps _ (keeps.pauses c (subst IsPause (sym e) tt) o)
  on_read-Served c read_interrupted e o = keeps.pauses c (subst IsPause (sym e) tt) o
  on_read-Served c read_failed e o = keeps.ends c (subst IsEnd (sym e) tt) o

  read_conn-Served : (c : Conn S) → Open c → Served Open Closed (read_conn h c)
  unfolding read_conn
  read_conn-Served c o = on_read-Served c (take_read c).0 refl o

  -- A pass that is in the list, with so much fuel left, in a clean reactor.
  abbrev Fits : ℕ → Scan S → Type 0
  Fits fuel p =
      (p.i ≤ length p.conns) × (length p.conns ≤ p.i + fuel) × IsClean Open Closed p.conns p.gone

  step_scan-Fits :
      (fuel : ℕ) (p : Scan S) (s : Conn S × Bool)
      → Served Open Closed s
      → p.i < length p.conns
      → Fits (suc fuel) p
      → Fits fuel (step_scan p s)
  unfolding step_scan
  step_scan-Fits fuel p (c, true) served inside (lo, hi, (o, d)) =
      let shorter = length-swap_remove p.conns p.i inside in
      (
        omega (arith, shorter, inside),
        omega (arith, shorter, hi),
        (AllOf-swap_remove _ p.conns p.i o, AllOf-snoc _ p.gone c d served),
      )
  step_scan-Fits fuel p (c, false) served inside (lo, hi, (o, d)) =
      let same = length-set p.conns p.i c in
      (
        omega (arith, same, inside),
        omega (arith, same, hi),
        (AllOf-set _ p.conns p.i c o served, d),
      )

  -- The pass ends in a clean reactor.
  abbrev EndsClean : Option (Scan S) → Type 0
  EndsClean r = (p : Scan S) × (r ≡ some p) × IsClean Open Closed p.conns p.gone

  scan-EndsClean : (fuel : ℕ) (p : Scan S) → Fits fuel p → EndsClean (scan h (suc fuel) p)
  unfolding scan
  scan-EndsClean zero p fits = elim (Option-cases (get_elem? p.conns p.i)) [
    | inl e ↦ (p, rw (e, scan) refl, fits.2)
    | inr (c, e) ↦ absurd (omega (arith, fits.1, lt_of_get_elem? p.conns p.i c e))
  ]
  scan-EndsClean (suc fuel) p fits = elim (Option-cases (get_elem? p.conns p.i)) [
    | inl e ↦ (p, rw (e, scan) refl, fits.2)
    | inr (c, e) ↦
        let o = AllOf-get_elem? Open p.conns p.i c (fits.2.0) e in
        let inside = lt_of_get_elem? p.conns p.i c e in
        rw (e, scan)
          (scan-EndsClean fuel (step_scan p (read_conn h c))
            (step_scan-Fits fuel p (read_conn h c) (read_conn-Served c o) inside fits))
  ]

  turn_scan-StaysClean :
      (es : List (Accept S)) (r : Reactor S)
      → MakesFresh Fresh es
      → IsClean Open Closed r.conns r.gone
      → StaysClean Open Closed (turn_scan h es r)
  unfolding turn_scan
  turn_scan-StaysClean es r makes clean =
      let r' = accept_loop h es r in
      let fuel : length r'.conns + 1 ≡ suc (length r'.conns) = omega arith in
      let (p, e, clean') =
        scan-EndsClean (length r'.conns) (record { conns = r'.conns; i = 0; gone = r'.gone })
          (omega arith, omega arith, accept_loop-IsClean es r makes clean) in
      (record { conns = p.conns; gone = p.gone }, rw (fuel, e, turn_scan) refl, clean')

  pub scan_reactor-StaysClean :
      (turns : List (List (Accept S))) (r : Reactor S)
      → AllMakeFresh Fresh turns
      → IsClean Open Closed r.conns r.gone
      → StaysClean Open Closed (scan_reactor h turns r)
  unfolding scan_reactor
  scan_reactor-StaysClean [] r makes clean = (r, refl, clean)
  scan_reactor-StaysClean (es ∷ turns) r (makes, more) clean =
      let (r', e, clean') = turn_scan-StaysClean es r makes clean in
      rw (e, scan_reactor) (scan_reactor-StaysClean turns r' more clean')

-- A reactor that scans, for however many turns and whatever the sockets and the listener return, ends
-- each pass within one round more than there are connections; the handler of a connection that is
-- still there has never been told that it was closed, and the handler of each that was dropped has
-- been told exactly once.
pub scan_reactor-Once :
    {S : Type 0} (h : Connection S) (turns : List (List (Accept (S × ℕ))))
    → AllMakeFresh MadeUnclosed turns
    → StaysClean NotClosed ClosedOnce (scan_reactor (counted h) turns no_conns)
scan_reactor-Once h turns makes =
    scan_reactor-StaysClean (counted h) MadeUnclosed NotClosed ClosedOnce (counted-Keeps h) turns
      no_conns makes (tt, tt)
