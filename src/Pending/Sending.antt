-- ===== src/Pending/Sending.antt =====
-- What is sent, and when.
use mathlib.Core.List.{append-nil, append_assoc}
use xayax.Prelude.{String, ap, sym, ◌∙◌, List, [], ◌∷◌, ◌++◌, ◌≡◌, ◌≢◌, ◌⊎◌, refl, arith}
use xayax.Prelude.Action.{
  Action, Outcome, done, threw, aborted, ◌>>◌, bind, After, Ever, NoAbort, Post-bind, NoAbort-bind,
  bind-done,
}
use xayax.BlockData.{MoveData}
use xayax.Pending.{
  Shared, modify, send_all, send_moves, tip_changed, pending_moves, chainstate_tip_changed,
}
use xayax.Pending.Order.{IsSettled, Call, HasTip, tip, moves, chainstate, step, run, queueing}

throws_kept :
    {S A B : Type 0} (f : S → B) (o : Outcome S A) {t : S} (b : B)
    → o ≡ threw t
    → Ever (λ s. f s ≡ b) o
    → f t ≡ b
throws_kept f o b e h = rw e at h

module _ {Json Zmq : Type 0} (send : List (MoveData Json) → Action Zmq (Unit {0})) where
  send_moves-NoAbort :
      ((ms : List (MoveData Json)) (z : Zmq) → NoAbort (send ms z))
      → (ms : List (MoveData Json)) (s : Shared Json Zmq) → NoAbort (send_moves send ms s)
  unfolding send_moves
  send_moves-NoAbort h ms s = ground (arith, h ms s.zmq)

  send_all-NoAbort :
      ((ms : List (MoveData Json)) (z : Zmq) → NoAbort (send ms z))
      → (queue : List (List (MoveData Json))) (s : Shared Json Zmq)
      → NoAbort (send_all send queue s)
  unfolding send_all send_moves
  send_all-NoAbort h [] s = tt
  send_all-NoAbort h (mv ∷ queue) s =
      NoAbort-bind (send_moves send mv s) (λ _. send_all send queue) (send_moves-NoAbort h mv s)
        (λ _ s'. send_all-NoAbort h queue s')

  -- While the queue is settled and the notifications carry tips, a call never aborts the process,
  -- if the publisher does not.
  pub step-NoAbort :
      ((ms : List (MoveData Json)) (z : Zmq) → NoAbort (send ms z))
      → (c : Call Json) (s : Shared Json Zmq) → HasTip c
      → IsSettled Json s.manager
      → NoAbort (step send c s)
  unfolding step tip_changed pending_moves chainstate_tip_changed send_moves
  step-NoAbort h (tip t) s n v = ground arith
  step-NoAbort h (moves ms) s n v = ground (arith, h ms s.zmq)
  step-NoAbort h (chainstate t) s n v = ground (
    arith,
    send_all-NoAbort h s.manager.pendings_queue
        (record s { manager = record s.manager { chainstate_tip = t } }),
  )

  send_moves_same_manager :
      (ms : List (MoveData Json)) (s : Shared Json Zmq)
      → Ever (λ s'. s'.manager ≡ s.manager) (send_moves send ms s)
  unfolding send_moves
  send_moves_same_manager ms s = ground arith

  send_all_same_manager :
      (queue : List (List (MoveData Json))) (s : Shared Json Zmq)
      → Ever (λ s'. s'.manager ≡ s.manager) (send_all send queue s)
  unfolding send_all
  send_all_same_manager [] s = refl
  send_all_same_manager (mv ∷ queue) s =
      Post-bind (λ _ s'. s'.manager ≡ s.manager) (λ _ s'. s'.manager ≡ s.manager)
        (λ s'. s'.manager ≡ s.manager) Unit (send_moves send mv s) (λ _. send_all send queue)
        (send_moves_same_manager mv s) (λ _ s' e. rw (← e) (send_all_same_manager queue s'))

  -- A call that returns sends nothing, unless the chainstate's tip is then the one notified last.
  pub step_sends_in_sync :
      (c : Call Json) (s : Shared Json Zmq)
      → After
          (λ s'. (s'.zmq ≡ s.zmq) ⊎ (s'.manager.chainstate_tip ≡ s'.manager.notification_tip))
          (step send c s)
  unfolding step tip_changed pending_moves chainstate_tip_changed send_moves
  step_sends_in_sync (tip t) s = ground arith
  step_sends_in_sync (moves ms) s = ground arith
  step_sends_in_sync (chainstate t) s = ground (
    arith,
    send_all_same_manager s.manager.pendings_queue
        (record s { manager = record s.manager { chainstate_tip = t } }),
  )

  abbrev emptied : Action (Shared Json Zmq) (Unit {0})
  emptied = modify (λ m. record m { pendings_queue = [] })

  abbrev at_tip : Shared Json Zmq → String → Shared Json Zmq
  at_tip s t = record s { manager = record s.manager { chainstate_tip = t } }

  abbrev queued : Shared Json Zmq → List (List (MoveData Json)) → Shared Json Zmq
  queued s mss = record s {
    manager = record s.manager { pendings_queue = s.manager.pendings_queue ++ mss };
  }

  step_queues :
      (ms : List (MoveData Json)) (s : Shared Json Zmq)
      → s.manager.chainstate_tip ≢ ""
      → s.manager.chainstate_tip ≢ s.manager.notification_tip
      → step send (moves ms) s ≡ done tt (queued s (ms ∷ []))
  unfolding step pending_moves
  step_queues ms s h d = ground arith

  step_catches_up :
      (s : Shared Json Zmq)
      → s.manager.notification_tip ≢ ""
      → step send (chainstate s.manager.notification_tip) s
        ≡ (send_all send s.manager.pendings_queue >> emptied) (at_tip s s.manager.notification_tip)
  unfolding step chainstate_tip_changed
  step_catches_up s n = ground arith

  abbrev flushed : Shared Json Zmq → Outcome (Shared Json Zmq) (Unit {0})
  flushed s =
      (send_all send s.manager.pendings_queue >> emptied) (at_tip s s.manager.notification_tip)

  -- The publisher is given notifications one after the other.
  abbrev pub in_order : List (List (MoveData Json)) → Action Zmq (Unit {0})
  in_order [] z = done tt z
  in_order (ms ∷ mss) z = bind (send ms z) (λ _. in_order mss)

  -- What a call leaves that gives all of these to the publisher at the notified tip.
  abbrev pub delivered :
      Shared Json Zmq → List (List (MoveData Json)) → Outcome (Shared Json Zmq) (Unit {0})
  delivered s mss = elim (in_order mss s.zmq) [
    | done _ z ↦ done tt (record {
      manager = record {
        chainstate_tip = s.manager.notification_tip;
        notification_tip = s.manager.notification_tip;
        pendings_queue = [];
      };
      zmq = z;
    })
    | threw z ↦ threw (record {
      manager = record {
        chainstate_tip = s.manager.notification_tip;
        notification_tip = s.manager.notification_tip;
        pendings_queue = mss;
      };
      zmq = z;
    })
    | aborted ↦ aborted
  ]

  send_all-in_order :
      (mss : List (List (MoveData Json))) (s : Shared Json Zmq)
      → send_all send mss s ≡ elim (in_order mss s.zmq) [
        | done _ z ↦ done tt (record s { zmq = z })
        | threw z ↦ threw (record s { zmq = z })
        | aborted ↦ aborted
      ]
  unfolding send_all send_moves
  send_all-in_order [] s = refl
  send_all-in_order (ms ∷ mss) s = given (send ms s.zmq) (send_all-in_order mss)
    where
      given :
          (o : Outcome Zmq (Unit {0}))
          → ((t : Shared Json Zmq)
              → send_all send mss t ≡ elim (in_order mss t.zmq) [
                | done _ z ↦ done tt (record t { zmq = z })
                | threw z ↦ threw (record t { zmq = z })
                | aborted ↦ aborted
              ])
          → bind
              (elim o [
                | done _ z ↦ done (tt {0}) (record s { zmq = z })
                | threw z ↦ threw (record s { zmq = z })
                | aborted ↦ aborted
              ])
              (λ _. send_all send mss)
            ≡ elim (bind o (λ _. in_order mss)) [
              | done _ z ↦ done tt (record s { zmq = z })
              | threw z ↦ threw (record s { zmq = z })
              | aborted ↦ aborted
            ]
      given (done a z) h = h (record s { zmq = z })
      given (threw z) h = refl
      given aborted h = refl

  flushed-delivered : (s : Shared Json Zmq) → flushed s ≡ delivered s s.manager.pendings_queue
  flushed-delivered s =
      ground
        (arith, send_all-in_order s.manager.pendings_queue (at_tip s s.manager.notification_tip))

  run_flushed :
      (mss : List (List (MoveData Json))) (s : Shared Json Zmq)
      → s.manager.chainstate_tip ≢ ""
      → s.manager.chainstate_tip ≢ s.manager.notification_tip
      → s.manager.notification_tip ≢ ""
      → run send (queueing mss ++ chainstate s.manager.notification_tip ∷ []) s
        ≡ flushed (queued s mss)
  unfolding run
  run_flushed [] s h d n = rw append-nil (bind-done _ ∙ step_catches_up s n)
  run_flushed (ms ∷ mss) s h d n =
      ap (λ o. bind o (λ _. run send (queueing mss ++ chainstate s.manager.notification_tip ∷ [])))
        (step_queues ms s h d)
      ∙ run_flushed mss (queued s (ms ∷ [])) h d n
      ∙ ap (λ q. flushed (record s { manager = record s.manager { pendings_queue = q } }))
          (append_assoc s.manager.pendings_queue (ms ∷ []) mss)

  -- While the chainstate has a tip other than the one notified last, moves that arrive are kept in the
  -- order of their arrival behind those already waiting, and nothing is sent. Once the chainstate reports
  -- the notified tip, the publisher is given all of them one after the other in that order and the queue is
  -- emptied after the last; if the publisher throws, all of them stay queued.
  pub run_queued :
      (mss : List (List (MoveData Json))) (s : Shared Json Zmq)
      → s.manager.chainstate_tip ≢ ""
      → s.manager.chainstate_tip ≢ s.manager.notification_tip
      → s.manager.notification_tip ≢ ""
      → run send (queueing mss ++ chainstate s.manager.notification_tip ∷ []) s
        ≡ delivered s (s.manager.pendings_queue ++ mss)
  run_queued mss s h d n = run_flushed mss s h d n ∙ flushed-delivered (queued s mss)

  throws_before :
      (o : Outcome (Shared Json Zmq) (Unit {0})) {t : Shared Json Zmq}
      → bind o (λ _. emptied) ≡ threw t
      → o ≡ threw t
  throws_before (done a s) e = cc
  throws_before (threw s) e = e
  throws_before aborted e = cc

  -- If the publisher throws while the queue is flushed, the moves stay queued at a tip that has been
  -- reached, and the next pending move aborts the process.
  pub flush_throws_aborts :
      (s t : Shared Json Zmq) (ms : List (MoveData Json))
      → s.manager.notification_tip ≢ ""
      → s.manager.pendings_queue ≢ []
      → step send (chainstate s.manager.notification_tip) s ≡ threw t
      → step send (moves ms) t ≡ aborted
  unfolding step pending_moves
  flush_throws_aborts s t ms n q e = ground (
    arith,
    throws_kept (λ (z : Shared Json Zmq). z.manager) _ _
        (throws_before
          (send_all send s.manager.pendings_queue (at_tip s s.manager.notification_tip))
          (sym (step_catches_up s n) ∙ e))
        (send_all_same_manager s.manager.pendings_queue (at_tip s s.manager.notification_tip)),
  )
