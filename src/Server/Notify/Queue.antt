-- ===== src/Server/Notify/Queue.antt =====
-- server/http_notify.go: the queue keeps the order of the notifications, and its bound.
use lalmax.Base.{
  ℕ, suc, ◌+◌, ◌⊎◌, ◌≤◌, ◌≡◌, refl, sym, ap, ◌∙◌, inl, inr, arith, Bool, true, false, List, [], ◌∷◌,
  ◌++◌, append_assoc, append_nil, ltb, if◌then◌else◌, length, length-append, Bool-cases,
}
use lalmax.Base.Text.{Text}
use mathlib.Core.Path.{subst}
use lalmax.Server.Notify.{
  HttpNotifyConfig, Notice, PostTask, HttpNotify, max_task_len, url_of, enqueue, is_off, async_post,
  take_task, run_loop, notify,
}

-- A notification, or a round of the loop.
pub data Event (I : Type 0) : Type 0 where
  told : Notice → I → Event I
  round : Event I

-- Some of a list, in its order.
pub data IsSome {A : Type 0} : List A → List A → Type 0 where
  none_of : IsSome [] []
  kept : {x : A} {xs ys : List A} → IsSome xs ys → IsSome (x ∷ xs) (x ∷ ys)
  dropped : {x : A} {xs ys : List A} → IsSome xs ys → IsSome xs (x ∷ ys)

if_true : {A : Type 0} (b : Bool) (x y : A) → b ≡ true → (if b then x else y) ≡ x
if_true b x y e = rw e refl

if_false : {A : Type 0} (b : Bool) (x y : A) → b ≡ false → (if b then x else y) ≡ y
if_false b x y e = rw e refl

fits : (n : ℕ) → ltb n max_task_len ≡ true → n + 1 ≤ max_task_len
fits n e = ground arith

module _ {I : Type 0} (set_server_id : Text → I → I) where
  abbrev step : Event I → HttpNotify I → HttpNotify I
  step (told n info) h = notify set_server_id n info h
  step round h = run_loop h

  abbrev pub steps : List (Event I) → HttpNotify I → HttpNotify I
  steps [] h = h
  steps (e ∷ es) h = steps es (step e h)

  abbrev pub task_of : HttpNotifyConfig → Text → Notice → I → PostTask I
  task_of cfg id n info = record { url = url_of cfg n; info = set_server_id id info }

  -- The tasks of the notifications, in order.
  abbrev pub tasks : HttpNotifyConfig → Text → List (Event I) → List (PostTask I)
  tasks cfg id [] = []
  tasks cfg id (told n info ∷ es) = task_of cfg id n info ∷ tasks cfg id es
  tasks cfg id (round ∷ es) = tasks cfg id es

  -- What has been posted and what waits, after a step.
  abbrev all_tasks : HttpNotify I → List (PostTask I)
  all_tasks h = h.posted ++ h.task_queue

  record IsStep (new : List (PostTask I)) (h k : HttpNotify I) : Type 0 where
    cfg : k.cfg ≡ h.cfg
    server_id : k.server_id ≡ h.server_id
    bound : length k.task_queue ≤ max_task_len
    tasks : all_tasks k ≡ all_tasks h ++ new

  same : (h : HttpNotify I) → length h.task_queue ≤ max_task_len → IsStep [] h h
  same h few = record {
    cfg = refl;
    server_id = refl;
    bound = few;
    tasks = sym (append_nil (all_tasks h));
  }

  take_task-IsStep :
      (q : List (PostTask I)) (h : HttpNotify I)
      → h.task_queue ≡ q
      → length h.task_queue ≤ max_task_len
      → IsStep [] h (take_task q h)
  unfolding take_task
  take_task-IsStep [] h e few = same h few
  take_task-IsStep (t ∷ q) h e few =
      let size : suc (length q) ≤ max_task_len = rw e at few in
      record {
        cfg = refl;
        server_id = refl;
        bound = omega (arith, size);
        tasks =
            append_assoc h.posted (t ∷ []) q
            ∙ (ap (λ q. h.posted ++ q) (sym e) ∙ sym (append_nil (all_tasks h)));
      }

  enqueue-IsStep :
      (t : PostTask I) (h : HttpNotify I)
      → length h.task_queue ≤ max_task_len
      → IsStep [] h (record h { task_queue = enqueue t h.task_queue })
        ⊎ IsStep (t ∷ []) h (record h { task_queue = enqueue t h.task_queue })
  unfolding enqueue
  enqueue-IsStep t h few = elim (Bool-cases (ltb (length h.task_queue) max_task_len)) [
    | inl room ↦ inr (
        subst (λ q. IsStep (t ∷ []) h (record h { task_queue = q }))
          (sym (if_true (ltb (length h.task_queue) max_task_len) _ _ room))
          (record {
            cfg = refl;
            server_id = refl;
            bound =
                omega (arith, length-append h.task_queue (t ∷ []), fits (length h.task_queue) room);
            tasks = sym (append_assoc h.posted h.task_queue (t ∷ []));
          }))
    | inr full ↦ inl (
        subst (λ q. IsStep [] h (record h { task_queue = q }))
          (sym (if_false (ltb (length h.task_queue) max_task_len) _ _ full)) (same h few))
  ]

  -- A notification is queued, and is the only new task, or it is given up.
  notify-IsStep :
      (n : Notice) (info : I) (h : HttpNotify I)
      → length h.task_queue ≤ max_task_len
      → IsStep [] h (notify set_server_id n info h)
        ⊎ IsStep (task_of h.cfg h.server_id n info ∷ []) h (notify set_server_id n info h)
  unfolding notify async_post
  notify-IsStep n info h few = elim (Bool-cases (is_off (url_of h.cfg n) h)) [
    | inl off ↦ inl (subst (IsStep [] h) (sym (if_true _ _ _ off)) (same h few))
    | inr on ↦
        let t = task_of h.cfg h.server_id n info in
        let queued = record h { task_queue = enqueue t h.task_queue } in
        let eq : notify set_server_id n info h ≡ queued = if_false _ _ _ on in
        elim (enqueue-IsStep t h few) [
          | inl s ↦ inl (subst (IsStep [] h) (sym eq) s)
          | inr s ↦ inr (subst (IsStep (t ∷ []) h) (sym eq) s)
        ]
  ]

  -- What comes of the events, from a first step to `k` on.
  IsAfter : List (PostTask I) → List (Event I) → HttpNotify I → HttpNotify I → Type 0
  IsAfter first es h k =
      (length (steps es k).task_queue ≤ max_task_len)
      × ((new : List (PostTask I)) × IsSome new (tasks h.cfg h.server_id es)
          × (all_tasks (steps es k) ≡ all_tasks h ++ (first ++ new)))

  step-IsAfter :
      (first : List (PostTask I)) (es : List (Event I)) (h k : HttpNotify I)
      → IsStep first h k
      → IsAfter [] es k k
      → IsAfter first es h k
  unfolding IsAfter
  step-IsAfter first es h k s (bound, (new, part, all)) = (
    bound,
    (
      new,
      subst (λ c. IsSome new (tasks c h.server_id es)) s.cfg
          (subst (λ id. IsSome new (tasks k.cfg id es)) s.server_id part),
      all ∙ (ap (λ l. l ++ new) s.tasks ∙ append_assoc (all_tasks h) first new),
    ),
  )

  -- From a queue within its bound on, over any notifications and rounds of the loop, the queue stays
  -- within its bound, and what has been posted or waits is what it was before and then some of the
  -- tasks of the notifications, in their order.
  pub steps-IsSome :
      (es : List (Event I)) (h : HttpNotify I)
      → length h.task_queue ≤ max_task_len
      → (length (steps es h).task_queue ≤ max_task_len)
        × ((new : List (PostTask I)) × IsSome new (tasks h.cfg h.server_id es)
            × ((steps es h).posted ++ (steps es h).task_queue ≡ (h.posted ++ h.task_queue) ++ new))
  unfolding run_loop IsAfter
  steps-IsSome [] h few = (few, ([], none_of, sym (append_nil (all_tasks h))))
  steps-IsSome (told n info ∷ es) h few =
      let k = notify set_server_id n info h in
      elim (notify-IsStep n info h few) [
        | inl s ↦
            let (bound, (new, part, all)) = step-IsAfter [] es h k s (steps-IsSome es k s.bound) in
            (bound, (new, dropped part, all))
        | inr s ↦
            let t = task_of h.cfg h.server_id n info in
            let (bound, (new, part, all)) =
              step-IsAfter (t ∷ []) es h k s (steps-IsSome es k s.bound) in
            (bound, (t ∷ new, kept part, all))
      ]
  steps-IsSome (round ∷ es) h few =
      let s = take_task-IsStep h.task_queue h refl few in
      step-IsAfter [] es h (run_loop h) s (steps-IsSome es (run_loop h) s.bound)
