-- ===== src/Di/Lifecycle/Closing.antt =====
-- What Close and Shutdown run, and that they run it once.
use mathlib.Core.List.{reverse, reverse-append}
use comments_service.Prelude.{
  ℕ, zero, suc, ◌≤◌, ◌<◌, ◌≡◌, refl, sym, ap, ◌∙◌, true, false, Option, none, some, List, [], ◌∷◌,
  ◌++◌, length, take, take_all, arith, Option-cases, Bool-cases, inl, inr,
}
use comments_service.Go.Text.{ascii}
use comments_service.Di.{DiError, DiErrors, nothing, Closer, Container, Platform}
use comments_service.Di.Lifecycle.{
  collect, lifecycle, closer_at, close_loop, close, stop_server, shutdown,
}

module _ {W : Type 0} where
  -- The closers that are not nil.
  abbrev pub present : List (Option (Closer W)) → List (Closer W)
  present [] = []
  present (none ∷ closers) = present closers
  present (some closer ∷ closers) = closer ∷ present closers

  -- All of them in turn, whether one fails or not, and the errors in this order.
  abbrev pub run_all : List (Closer W) → DiErrors → W → DiErrors × W
  run_all [] errors w = (errors, w)
  run_all (closer ∷ closers) errors w =
      let (e, w') = closer w in run_all closers (collect errors e) w'

  take-suc :
      (closers : List (Option (Closer W))) (n : ℕ)
      → n < length closers
      → take (suc n) closers ≡ take n closers ++ closer_at closers n ∷ []
  take-suc [] n h = absurd (omega (arith, h))
  take-suc (closer ∷ closers) zero h = refl
  take-suc (closer ∷ closers) (suc n) h = ap (◌∷◌ closer) (take-suc closers n (omega (arith, h)))

  present-append :
      (xs ys : List (Option (Closer W))) → present (xs ++ ys) ≡ present xs ++ present ys
  present-append [] ys = refl
  present-append (none ∷ xs) ys = present-append xs ys
  present-append (some closer ∷ xs) ys = ap (◌∷◌ closer) (present-append xs ys)

  -- The loop from the index n - 1 down runs the first n of the closers, the last one first.
  close_loop-reverse :
      (closers : List (Option (Closer W))) (n : ℕ) (errors : DiErrors) (w : W)
      → n ≤ length closers
      → close_loop closers n errors w ≡ run_all (reverse (present (take n closers))) errors w
  unfolding close_loop
  close_loop-reverse closers zero errors w h = refl
  close_loop-reverse closers (suc n) errors w h =
      let parts : reverse (present (take (suc n) closers))
          ≡ reverse (present (closer_at closers n ∷ [])) ++ reverse (present (take n closers)) =
        ap (λ l. reverse (present l)) (take-suc closers n (omega (arith, h)))
        ∙ ap reverse (present-append (take n closers) (closer_at closers n ∷ []))
        ∙ reverse-append (present (take n closers)) (present (closer_at closers n ∷ [])) in
      rw parts elim (Option-cases (closer_at closers n)) [
        | inl absent ↦ rw absent (close_loop-reverse closers n errors w (omega (arith, h)))
        | inr (closer, found) ↦ rw found (
            close_loop-reverse closers n (collect errors (closer w).0) (closer w).1
              (omega (arith, h)))
      ]

  -- Close, on a container that is not closed, calls every closer that is not nil, in the reverse of the order
  -- in which they were added and each also after another has failed; it answers nil if none failed, else all
  -- the errors in the order in which they came; and it leaves the container closed, with no closers.
  pub close-reverse :
      (c : Container W) (w : W)
      → c.closed ≡ false
      → close c w ≡ (
          let (errors, w') = run_all (reverse (present c.closers)) nothing w in
          (
            (lifecycle (ascii "close container") errors, record c { closed = true; closers = [] }),
            w',
          ))
  unfolding close
  close-reverse c w unclosed =
      let run : close_loop c.closers (length c.closers) nothing w
          ≡ run_all (reverse (present c.closers)) nothing w =
        close_loop-reverse c.closers (length c.closers) nothing w (omega arith)
        ∙ ap (λ l. run_all (reverse (present l)) nothing w)
            (take_all (length c.closers) c.closers (omega arith)) in
      rw (unclosed, run) refl

  -- Close leaves a closed container, whatever the container was.
  close-closed : (c : Container W) (w : W) → (close c w).0.1.closed ≡ true
  unfolding close
  close-closed c w = elim (Bool-cases c.closed) [
    | inl shut ↦ rw shut refl
    | inr unclosed ↦ rw unclosed refl
  ]

  closed_close : (c : Container W) (w : W) → c.closed ≡ true → close c w ≡ ((none, c), w)
  unfolding close
  closed_close c w shut = rw shut refl

  close-http_server : (c : Container W) (w : W) → (close c w).0.1.http_server ≡ c.http_server
  unfolding close
  close-http_server c w = elim (Bool-cases c.closed) [
    | inl shut ↦ rw shut refl
    | inr unclosed ↦ rw unclosed refl
  ]

  -- The answer of Shutdown, out of the errors of the server and the answer of Close.
  abbrev ended : DiErrors → (Option DiError × Container W) × W → (Option DiError × Container W) × W
  ended errors ((e, c), w) = ((lifecycle (ascii "shutdown container") (collect errors e), c), w)

  stopped_shutdown :
      (platform : Platform W) (c : Container W) (w : W)
      → c.closed ≡ true
      → c.http_server ≡ none
      → shutdown platform c w ≡ ((none, c), w)
  unfolding shutdown
  stopped_shutdown platform c w shut stopped =
      let same : record c { http_server = none } ≡ c =
        λ i. record c { http_server = sym stopped i } in
      ap (λ stop. ended stop.0 (close (record c { http_server = none }) stop.1))
        (ap (λ server. stop_server platform server w) stopped)
      ∙ ap (ended nothing) (ap (λ d. close d w) same ∙ closed_close c w shut)

  -- After Close, a second Close answers nil, calls nothing and leaves the container as it is, even if the
  -- first one failed. So does a second Shutdown after a first one.
  pub shutdown-twice :
      (platform : Platform W) (c : Container W) (w w' : W)
      → (close (close c w).0.1 w' ≡ ((none, (close c w).0.1), w'))
        × (shutdown platform (shutdown platform c w).0.1 w'
            ≡ ((none, (shutdown platform c w).0.1), w'))
  unfolding shutdown
  shutdown-twice platform c w w' = (
    closed_close (close c w).0.1 w' (close-closed c w),
    stopped_shutdown platform _ w'
        (close-closed (record c { http_server = none }) (stop_server platform c.http_server w).1)
        (close-http_server (record c { http_server = none })
          (stop_server platform c.http_server w).1),
  )
