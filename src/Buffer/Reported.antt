-- ===== src/Buffer/Reported.antt =====
-- `GetUnAcked`, and the range of numbers that a failed `Drain` reports.
use mathlib.Core.List.{append-nil}
use go_uspclient.Base.{
  ℕ, zero, suc, ◌+◌, ◌-◌, ◌≤◌, ◌<◌, ◌≡◌, ◌≢◌, refl, sym, ap, ◌∙◌, Bool, true, false, Option, none,
  List, [], ◌∷◌, ◌++◌, arith, length, length-take, get_or, take, take_all, drop, drop_all, ltb,
  add64, ◌==◌, inl, inr, Bool-cases, contains,
}
use go_uspclient.Protocol.Messages.{DataMessage}
use go_uspclient.Buffer.State.{AckBuffer, pending, is_retired}
use go_uspclient.Buffer.Control.{
  live_slots, get_un_acked, first_live, last_live, live_seq_bounds, seq_or_zero,
}
use go_uspclient.Buffer.Valid.{IsValid}
use go_uspclient.Buffer.Listing.{
  first_of, last_of, take-snoc, drop-cons, get_or-take, last_of-snoc, is_empty_list,
}

module _ (b : AckBuffer) where
  abbrev at_retired : ℕ → Bool
  at_retired i = is_retired (add64 b.first_seq_num i) b

  live_slots-append :
      (i : ℕ) (xs ys : List (Option DataMessage))
      → live_slots i (xs ++ ys) b ≡ live_slots i xs b ++ live_slots (i + length xs) ys b
  unfolding live_slots
  live_slots-append i [] ys = let e : i + 0 ≡ i = omega arith in rw e refl
  live_slots-append i (x ∷ xs) ys =
      let e : i + suc (length xs) ≡ i + 1 + length xs = omega arith in
      elim (Bool-cases (at_retired i)) [
        | inl r ↦ rw (e, r) (live_slots-append (i + 1) xs ys)
        | inr r ↦ rw (e, r) (ap (◌∷◌ x) (live_slots-append (i + 1) xs ys))
      ]

  live_slots_all :
      (i : ℕ) (xs : List (Option DataMessage)) → b.retired ≡ [] → live_slots i xs b ≡ xs
  unfolding live_slots contains
  live_slots_all i [] h = refl
  live_slots_all i (x ∷ xs) h =
      let r : at_retired i ≡ false = rw h refl in rw r (ap (◌∷◌ x) (live_slots_all (i + 1) xs h))

  -- The shortcut of `GetUnAcked` for a buffer with no retired slot is the filter.
  get_un_acked-eq : get_un_acked b ≡ live_slots 0 (pending b) b
  unfolding get_un_acked
  get_un_acked-eq = elim (Bool-cases (length b.retired == 0)) [
    | inl e ↦ rw e (sym (live_slots_all 0 (pending b) (is_empty_list b.retired e)))
    | inr e ↦ rw e refl
  ]

  abbrev live_before : ℕ → List (Option DataMessage)
  live_before n = live_slots 0 (take n (pending b)) b

  -- One slot more.
  live_before-suc :
      (n : ℕ)
      → n < length (pending b)
      → live_before (suc n) ≡ live_before n ++ live_slots n (get_or (pending b) n none ∷ []) b
  live_before-suc n h =
      let l : 0 + length (take n (pending b)) ≡ n = omega (arith, length-take n (pending b), h) in
      let a = live_slots-append 0 (take n (pending b)) (get_or (pending b) n none ∷ []) in
      rw (take-snoc (pending b) n h) (rw l at a)

  -- Where the first loop stops: at the first slot from `i` on that is not retired.
  record FirstLive (i j : ℕ) : Type 0 where
    from : i ≤ j
    within : j < length (pending b)
    live_there : at_retired j ≡ false
    first : first_of (live_slots i (drop i (pending b)) b) ≡ get_or (pending b) j none

  FirstLive-here : (i : ℕ) → i < length (pending b) → at_retired i ≡ false → FirstLive i i
  unfolding live_slots
  FirstLive-here i h r = record {
    from = omega arith;
    within = h;
    live_there = r;
    first = rw (drop-cons (pending b) i h, r) refl;
  }

  skip_retired :
      (i : ℕ)
      → i < length (pending b)
      → at_retired i ≡ true
      → live_slots i (drop i (pending b)) b ≡ live_slots (i + 1) (drop (i + 1) (pending b)) b
  unfolding live_slots
  skip_retired i h r =
      let e : i + 1 ≡ suc i = omega arith in rw (drop-cons (pending b) i h, r, e) refl

  first_live_lem :
      (n i : ℕ)
      → i + suc n ≡ length (pending b)
      → live_slots i (drop i (pending b)) b ≢ []
      → FirstLive i (first_live n i b)
  unfolding first_live
  first_live_lem zero i h ne = elim (Bool-cases (at_retired i)) [
    | inl r ↦ absurd (
        ne (
          skip_retired i (omega (arith, h)) r
          ∙ ap (λ xs. live_slots (i + 1) xs b) (drop_all (i + 1) (pending b) (omega (arith, h)))
          ∙ unfold live_slots in refl))
    | inr r ↦ FirstLive-here i (omega (arith, h)) r
  ]
  first_live_lem (suc n) i h ne = elim (Bool-cases (at_retired i)) [
    | inl r ↦
        let s = skip_retired i (omega (arith, h)) r in
        let f = first_live_lem n (i + 1) (omega (arith, h)) (λ e. ne (s ∙ e)) in
        rw r (record {
          from = omega (arith, f.from);
          within = f.within;
          live_there = f.live_there;
          first = ap first_of s ∙ f.first;
        })
    | inr r ↦ rw r (FirstLive-here i (omega (arith, h)) r)
  ]

  -- The second stops at the last one.
  last_live_lem :
      (n i : ℕ)
      → i + n < length (pending b)
      → at_retired i ≡ false
      → last_of (live_before (suc (i + n))) ≡ get_or (pending b) (last_live n (i + n) b) none
  unfolding last_live live_slots
  last_live_lem zero i h r =
      let e : i + 0 ≡ i = omega arith in
      rw (e, live_before-suc i (omega (arith, h)), r)
        (last_of-snoc (live_before i) (get_or (pending b) i none))
  last_live_lem (suc n) i h r = elim (Bool-cases (at_retired (i + suc n))) [
    | inl d ↦
        let e : i + suc n - 1 ≡ i + n = omega arith in
        let f : i + suc n ≡ suc (i + n) = omega arith in
        rw (live_before-suc (i + suc n) h, d, e)
          (rw (append-nil (live_before (i + suc n)), f) (last_live_lem n i (omega (arith, h)) r))
    | inr d ↦ rw (live_before-suc (i + suc n) h, d) (last_of-snoc (live_before (i + suc n)) _)
  ]

last_live-le : (n i : ℕ) (b : AckBuffer) → last_live n i b ≤ i
unfolding last_live
last_live-le zero i b = omega arith
last_live-le (suc n) i b = ground (arith, last_live-le n (i - 1) b)

module _ (b : AckBuffer) (v : IsValid b) (ne : get_un_acked b ≢ []) where
  count_pending : length (pending b) ≡ b.next_index_free
  count_pending = omega (arith, v.fits, length-take b.next_index_free b.buff)

  abbrev last : ℕ
  last = b.next_index_free - 1

  some_held : 0 < b.next_index_free
  some_held = elim (Bool-cases (ltb 0 b.next_index_free)) [
    | inl h ↦ ground (arith, h)
    | inr h ↦
        let e : b.next_index_free ≡ 0 = ground (arith, h) in
        absurd (ne (get_un_acked-eq b ∙ rw e (unfold live_slots in refl)))
  ]

  -- A slot of the window, in the backing array.
  slot : (i : ℕ) → i < b.next_index_free → get_or b.buff i none ≡ get_or (pending b) i none
  slot i h = sym (get_or-take b.buff b.next_index_free i h)

  bounds_plain :
      (length b.retired == 0) ≡ true
      → live_seq_bounds b ≡ (seq_or_zero (first_of (pending b)), seq_or_zero (last_of (pending b)))
  unfolding live_seq_bounds
  bounds_plain e =
      let p : length (pending b) - 1 ≡ last = omega (arith, count_pending) in
      rw (e, p, slot 0 some_held, slot last (omega (arith, some_held))) refl

  live_all : live_before b (suc last) ≡ get_un_acked b
  live_all =
      ap (λ xs. live_slots 0 xs b) (take_all (suc last) (pending b) (omega (arith, count_pending)))
      ∙ sym (get_un_acked-eq b)

  bounds_retired :
      (length b.retired == 0) ≡ false
      → live_seq_bounds b
        ≡ (seq_or_zero (first_of (get_un_acked b)), seq_or_zero (last_of (get_un_acked b)))
  unfolding live_seq_bounds
  bounds_retired e =
      let f =
        first_live_lem b last 0 (omega (arith, count_pending, some_held))
          (λ z. ne (get_un_acked-eq b ∙ z)) in
      let i = first_live last 0 b in
      let s : i + (last - i) ≡ last = omega (arith, f.within, count_pending) in
      let l = last_live_lem b (last - i) i (omega (arith, f.within, count_pending)) f.live_there in
      let l' : last_of (live_before b (suc last))
          ≡ get_or (pending b) (last_live (last - i) last b) none =
        rw s at l in
      let j = last_live (last - i) last b in
      rw
        (
          e,
          slot i (omega (arith, f.within, count_pending)),
          slot j (omega (arith, last_live-le (last - i) last b, some_held)),
        )
        (ap (λ x. (seq_or_zero x, seq_or_zero (get_or (pending b) j none)))
            (sym f.first ∙ ap first_of (sym (get_un_acked-eq b)))
          ∙ ap (λ x. (seq_or_zero (first_of (get_un_acked b)), seq_or_zero x))
              (sym l' ∙ ap last_of live_all))

  -- In a valid buffer whose `GetUnAcked` is not empty: `GetUnAcked` is the slots of the window that
  -- are not retired, in order, also where it takes the shortcut of a buffer with none retired; and
  -- the two loops of `liveSeqBoundsLocked` find the numbers of the first and of the last of them.
  pub live_seq_bounds-get_un_acked :
      (get_un_acked b ≡ live_slots 0 (pending b) b)
      × (live_seq_bounds b
          ≡ (seq_or_zero (first_of (get_un_acked b)), seq_or_zero (last_of (get_un_acked b))))
  live_seq_bounds-get_un_acked = (
    get_un_acked-eq b,
    elim (Bool-cases (length b.retired == 0)) [
      | inl e ↦
          let p : get_un_acked b ≡ pending b =
            get_un_acked-eq b ∙ live_slots_all b 0 (pending b) (is_empty_list b.retired e) in
          rw p (bounds_plain e)
      | inr e ↦ bounds_retired e
    ],
  )
