-- ===== src/Mpsc/Threads/Release.antt =====
-- The receiver takes the message of the position that it has claimed, and releases its slot to the
-- next lap; both keep the invariant.
use native.Mathlib.Nat.{mod-lt, le_refl, add-mod_right}
use aetherflow.Base.{
  ℕ, suc, ◌+◌, ◌%◌, ◌≤◌, ◌<◌, ◌≡◌, refl, ◌⊎◌, inl, inr, ap, ◌∙◌, some, List, [], ◌∷◌, ◌++◌, arith,
  length, get_elem?, set, length-append, get_elem?-set_self, get_elem?-set_ne, length-set,
  get_elem?-append_cases, dec_lt,
}
use aetherflow.Mpsc.{Slot, release, received}
use aetherflow.Mpsc.Threads.Facts.{SenderFact-set, SenderFact-move, owned_facts}
use aetherflow.Mpsc.Threads.{World}
use aetherflow.Mpsc.Threads.Invariant.{
  Inv, SenderFact, IsOpen, IsFull, claimed, owned, place, apart,
}

module _ {T : Type 0} {cap : ℕ} {w : World T} (inv : Inv cap w)
    (claims : claimed w.receiver (length w.delivered) ≡ suc (length w.delivered)) where
  open inv use {power, two, mask, size, tail, head, sent_first, room, order, slots, senders, unique}

  abbrev d : ℕ
  d = length w.delivered

  abbrev b : List (Slot T)
  b = w.queue.buffer

  module _ (s : Slot T) where
    abbrev b' : List (Slot T)
    b' = set b (d % cap) s

    written : place b' cap d ≡ some s
    written = get_elem?-set_self b (d % cap) s (rw size (mod-lt d (omega arith)))

    kept : (k : ℕ) → suc d ≤ k → k < d + cap → place b' cap k ≡ place b cap k
    kept k lo hi =
        get_elem?-set_ne b (d % cap) (k % cap) s
          (apart cap d d k (le_refl d) (omega arith) (omega arith) hi (omega arith))

    kept_slot : (k : ℕ) → suc d ≤ k → k < d + cap → IsOpen b' cap k ⊎ IsFull b' cap w.reserved k
    kept_slot k lo hi = elim (slots k (omega arith) hi) [
      | inl (v, is_open) ↦ inl (v, kept k lo hi ∙ is_open)
      | inr (x, l, full) ↦ inr (x, l, kept k lo hi ∙ full)
    ]

    owner_later : (i k : ℕ) → owned (w.sender i) ≡ some k → (suc d ≤ k) × (k < d + cap)
    owner_later i k o =
        let f =
          owned_facts b cap d (claimed w.receiver d) w.reserved (w.sender i) k (senders i) o in
        (omega (arith, f.0), f.1)

    -- What the senders' locals say, after the slot is rewritten and `d'` positions are released.
    kept_sender : (d' i : ℕ) → d ≤ d' → SenderFact b' cap d' (suc d) w.reserved (w.sender i)
    kept_sender d' i le =
        SenderFact-move b' cap d d' (claimed w.receiver d) (suc d) w.reserved (w.sender i) le
          (λ k o. (owner_later i k o).0)
          (SenderFact-set b b' cap d (claimed w.receiver d) w.reserved (w.sender i)
            (λ k o. let f = owner_later i k o in kept k f.0 f.1) (senders i))

    -- The message is moved out.
    pub emptied :
        (x : T)
        → s.seq ≡ suc d
        → get_elem? w.reserved d ≡ some x
        → Inv cap (record w { queue = record w.queue { buffer = b' }; receiver = release d x })
    emptied x num l = record {
      power = power;
      two = two;
      mask = mask;
      size = length-set b (d % cap) s ∙ size;
      tail = tail;
      head = omega (arith, head);
      sent_first = omega (arith, sent_first);
      room = room;
      order = order;
      slots = λ k lo hi. kept_slot k lo hi;
      senders = λ i. kept_sender d i (le_refl d);
      unique = unique;
      receiver =
          (refl, l, (s.val, written ∙ ap (λ (t : ℕ). some (record { seq = t; val = s.val })) num));
    }

    -- The slot is numbered for the next lap, and the message is delivered.
    pub released :
        (x : T)
        → s.seq ≡ d + cap
        → get_elem? w.reserved d ≡ some x
        → Inv cap (record w {
          queue = record w.queue { buffer = b' };
          receiver = received (some x);
          delivered = w.delivered ++ (x ∷ []);
        })
    released x num l = record {
      power = power;
      two = two;
      mask = mask;
      size = length-set b (d % cap) s ∙ size;
      tail = tail;
      head = omega (arith, head, more);
      sent_first = omega (arith, sent_first, more);
      room = omega (arith, room, more);
      order = λ j y e. elim (get_elem?-append_cases w.delivered x j y e) [
        | inl (lt, old) ↦ order j y old
        | inr (at_end, new) ↦ rw (at_end, ← new) l
      ];
      slots = λ k lo hi. elim (dec_lt k (d + cap)) [
        | yes below ↦ kept_slot k (omega (arith, more)) below
        | no past ↦ let e : k ≡ d + cap = omega (arith, more) in inl (s.val, next_lap k e)
      ];
      senders = λ i. rw more (kept_sender (suc d) i (omega arith));
      unique = unique;
      receiver = tt;
    }
      where
        more : length (w.delivered ++ (x ∷ [])) ≡ suc d
        more = omega (arith, length-append w.delivered (x ∷ []))

        next_lap : (k : ℕ) → k ≡ d + cap → place b' cap k ≡ some (record { seq = k; val = s.val })
        next_lap k e =
            rw (e, add-mod_right)
              (written ∙ ap (λ (t : ℕ). some (record { seq = t; val = s.val })) num)
