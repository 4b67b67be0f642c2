-- ===== src/Client/Observing.antt =====
-- What a receipt reports while `Close` may be called.
use go_uspclient.Base.{
  ℕ, ◌≡◌, refl, ap, sym, ◌∙◌, Bool, true, false, List, [], ◌∷◌, Option, none, some, arith, inl, inr,
  Bool-cases, Option-cases,
}
use go_uspclient.Buffer.State.{ReceiptFrameState, acknowledged}
use go_uspclient.Client.State.{ReceiptLifetime, unknown, live, closing, closed, Client}
use go_uspclient.Client.Receipts.{
  ReceiptObservation, admission_receipt_owner, is_admitted, no_observation, unconfirmed,
  unless_closed, raise, observation, observe_receipt,
}
use go_uspclient.Client.Threads.{Thread, Answer}
use go_uspclient.Client.Workers.{Worker, Report}
use go_uspclient.Client.Turns.{AfterWork, proceed-AfterWork, reconnect-Quietly}
use go_uspclient.Client.Closing.{Orderly, advance-Orderly}
use go_uspclient.Client.System.{
  System, alive, Move, advances, proceeds, asks_reconnect, asks_close, asks_drain, ships, times_out,
  drains, binds, after_thread, after_worker, step_thread, step_worker, move, moves,
}

abbrev IsClosing : System → Type 0
IsClosing s = s.client.is_closing ≡ true

after_thread-IsClosing :
    (i n : ℕ) (t : Thread) (r : Option (Thread × Client × Bool)) (s : System)
    → Orderly n t s.client r
    → IsClosing s
    → IsClosing (after_thread i t r s)
after_thread-IsClosing i n t none s o h = h
after_thread-IsClosing i n t (some (t', c, b)) s o h = o.5 ∙ h

step_thread-IsClosing :
    (i : ℕ) (a : Answer) (o : Option Thread) (s : System)
    → IsClosing s
    → IsClosing (step_thread i a o s)
unfolding step_thread
step_thread-IsClosing i a none s h = h
step_thread-IsClosing i a (some t) s h =
    after_thread-IsClosing i (alive s) t _ s (advance-Orderly a (alive s) s.client t) h

after_worker-IsClosing :
    (i : ℕ) (r : Option (Worker × Client × Bool)) (s : System)
    → AfterWork s.client r
    → IsClosing s
    → IsClosing (after_worker i r s)
after_worker-IsClosing i none s q h = h
after_worker-IsClosing i (some (w, c, b)) s q h = q.1 ∙ h

step_worker-IsClosing :
    (i : ℕ) (r : Report) (o : Option Worker) (s : System)
    → IsClosing s
    → IsClosing (step_worker i r o s)
unfolding step_worker
step_worker-IsClosing i r none s h = h
step_worker-IsClosing i r (some w) s h =
    after_worker-IsClosing i _ s (proceed-AfterWork r w.phase w s.client) h

-- `isClosing` is never cleared.
move-IsClosing : (m : Move) (s : System) → IsClosing s → IsClosing (move m s)
unfolding move
move-IsClosing (advances i a) s h = step_thread-IsClosing i a _ s h
move-IsClosing (proceeds i r) s h = step_worker-IsClosing i r _ s h
move-IsClosing asks_reconnect s h = (reconnect-Quietly s.client).1 ∙ h
move-IsClosing asks_close s h = refl
move-IsClosing asks_drain s h = h
move-IsClosing (ships e waiter receipt limit) s h = h
move-IsClosing (times_out waiter) s h = h
move-IsClosing (drains done) s h = h
move-IsClosing binds s h = unfold admission_receipt_owner in h

moves-IsClosing : (ms : List Move) (s : System) → IsClosing s → IsClosing (moves ms s)
unfolding moves
moves-IsClosing [] s h = h
moves-IsClosing (m ∷ ms) s h = moves-IsClosing ms (move m s) (move-IsClosing m s h)

abbrev pub confirmed : ReceiptObservation
confirmed = record { frame = acknowledged; lifetime = live }

raise_live : (b : Bool) (l : ReceiptLifetime) → raise b l ≡ live → (l ≡ live) × (b ≡ false)
raise_live false l h = (h, refl)
raise_live true unknown h = absurd (cc h)
raise_live true live h = absurd (cc h)
raise_live true closing h = absurd (cc h)
raise_live true closed h = absurd (cc h)

-- A first frame that is in order, with a lifetime that is live.
frame_live :
    (s : ReceiptFrameState) (l : ReceiptLifetime) (s' : ReceiptFrameState) (b : Bool)
    → raise b l ≡ live
    → unconfirmed (raise b l) (unless_closed l s s') ≡ s
frame_live s unknown s' b h = ap (λ x. unconfirmed x s) h
frame_live s live s' b h = ap (λ x. unconfirmed x s) h
frame_live s closing s' b h = ap (λ x. unconfirmed x s) h
frame_live s closed s' b h = absurd (cc ((raise_live b closed h).0))

observation-confirmed :
    (s : ReceiptFrameState) (l : ReceiptLifetime) (s' : ReceiptFrameState) (b : Bool)
    → observation s l s' b ≡ confirmed
    → (s ≡ acknowledged) × (b ≡ false)
unfolding observation
observation-confirmed s l s' b h = elim (Bool-cases (is_admitted s)) [
  | inl e ↦
      let q : raise b l ≡ live = ground (arith, e, ap (λ (o : ReceiptObservation). o.lifetime) h) in
      let f : unconfirmed (raise b l) (unless_closed l s s') ≡ acknowledged =
        ground (arith, e, ap (λ (o : ReceiptObservation). o.frame) h) in
      (sym (frame_live s l s' b q) ∙ f, (raise_live b l q).1)
  | inr e ↦ absurd (
      let q : unknown ≡ live = ground (arith, e, ap (λ (o : ReceiptObservation). o.lifetime) h) in
      cc q)
]

observe_confirmed :
    (address cell : ℕ) (c₀ c₁ c₂ c₃ c₄ : Client)
    → observe_receipt address (record { owner = some address; state = some cell }) c₀ c₁ c₂ c₃ c₄
      ≡ confirmed
    → (c₁.buffer.cells cell ≡ acknowledged) × (c₄.is_closing ≡ false)
unfolding observe_receipt
observe_confirmed address cell c₀ c₁ c₂ c₃ c₄ h = elim (Option-cases c₀.receipt_owner) [
  | inl e ↦ absurd (unobserved (ground (arith, e)))
  | inr (_, e) ↦ elim (Option-cases c₂.receipt_owner) [
    | inl q ↦ absurd (unobserved (ground (arith, e, q)))
    | inr (l, q) ↦
        observation-confirmed (c₁.buffer.cells cell) l (c₃.buffer.cells cell) c₄.is_closing
          (ground (arith, e, q, h))
  ]
]
  where
    seen : ReceiptObservation
    seen =
        observe_receipt address (record { owner = some address; state = some cell }) c₀ c₁ c₂ c₃ c₄

    unobserved : seen ≡ no_observation → ⊥
    unobserved e =
        let q : unknown ≡ live = ap (λ (o : ReceiptObservation). o.lifetime) (sym e ∙ h) in cc q

-- `ObserveReceipt` in state `s` for the client's own receipt in `cell`, with the steps that run before
-- its first load and between its five.
abbrev pub observed : (ms₀ ms₁ ms₂ ms₃ ms₄ : List Move) → System → ℕ → ℕ → ReceiptObservation
observed ms₀ ms₁ ms₂ ms₃ ms₄ s address cell =
    let s₀ = moves ms₀ s in
    let s₁ = moves ms₁ s₀ in
    let s₂ = moves ms₂ s₁ in
    let s₃ = moves ms₃ s₂ in
    let s₄ = moves ms₄ s₃ in
    observe_receipt address (record { owner = some address; state = some cell }) s₀.client s₁.client
      s₂.client s₃.client s₄.client

-- Where `ObserveReceipt` reports an acknowledged frame of a live client, the frame's cell was
-- acknowledged at a state in which no call of `Close` had begun: its load of the frame, however the
-- client's steps run before and between its five loads.
pub observe_receipt-confirmed :
    (ms₀ ms₁ ms₂ ms₃ ms₄ : List Move) (s : System) (address cell : ℕ)
    → observed ms₀ ms₁ ms₂ ms₃ ms₄ s address cell ≡ confirmed
    → let c = (moves ms₁ (moves ms₀ s)).client in
      (c.buffer.cells cell ≡ acknowledged) × (c.is_closing ≡ false)
observe_receipt-confirmed ms₀ ms₁ ms₂ ms₃ ms₄ s address cell h =
    let s₀ = moves ms₀ s in
    let s₁ = moves ms₁ s₀ in
    let s₂ = moves ms₂ s₁ in
    let s₃ = moves ms₃ s₂ in
    let c =
      observe_confirmed address cell s₀.client s₁.client s₂.client s₃.client (moves ms₄ s₃).client
        h in
    (
      c.0,
      elim (Bool-cases s₁.client.is_closing) [
        | inl e ↦
            absurd
              (cc (moves-IsClosing ms₄ s₃ (moves-IsClosing ms₃ s₂ (moves-IsClosing ms₂ s₁ e)), c.1))
        | inr e ↦ e
      ],
    )
