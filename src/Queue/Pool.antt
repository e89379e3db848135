-- ===== src/Queue/Pool.antt =====
-- internal/queue/worker.go: the pool of workers as a step relation: Start, Stop and Resize, and runWorker,
-- whose select may take a job also where the pool's context is done. `Pool.processed` lists the jobs whose
-- process has returned.
use gdrive_bot.Base.{
  ℕ, zero, suc, ◌+◌, ◌≡◌, refl, ap, Bool, true, false, List, [], ◌∷◌, ◌++◌, All, arith,
}
use gdrive_bot.Queue.{Job}

-- a worker at its select, in process, or returned
pub data Worker : Type 0 where
  idle : Worker
  working : Job → Worker
  gone : Worker

pub record Pool : Type 0 where
  pub waiting : List Job
  pub workers : List Worker
  pub processed : List Job
  -- the context of the pool is done
  pub stopping : Bool

-- the workers that Start launches
abbrev pub launched : ℕ → List Worker
launched zero = []
launched (suc n) = idle ∷ launched n

abbrev pub Gone : Worker → Type 0
Gone w = w ≡ gone

-- What a pool can come to, where these jobs were sent.
pub data Runs : List Job → Pool → Type 0 where
  -- NewManager and Start
  starts :
      (n : ℕ)
      → Runs [] (record { waiting = []; workers = launched n; processed = []; stopping = false })
  -- the send of Enqueue or Resume
  sends :
      (js : List Job) (p : Pool) (job : Job)
      → Runs js p
      → Runs (js ++ job ∷ []) (record p { waiting = p.waiting ++ job ∷ [] })
  -- the receive of runWorker
  takes :
      (js : List Job) (p : Pool) (before after : List Worker) (job : Job) (rest : List Job)
      → Runs js p
      → p.workers ≡ before ++ idle ∷ after
      → p.waiting ≡ job ∷ rest
      → Runs js (record p { waiting = rest; workers = before ++ working job ∷ after })
  -- the return of process
  returns :
      (js : List Job) (p : Pool) (before after : List Worker) (job : Job)
      → Runs js p
      → p.workers ≡ before ++ working job ∷ after
      → Runs js (record p { workers = before ++ idle ∷ after; processed = p.processed ++ job ∷ [] })
  -- workerCancel of Stop
  stops : (js : List Job) (p : Pool) → Runs js p → Runs js (record p { stopping = true })
  -- a worker that finds the context done
  leaves :
      (js : List Job) (p : Pool) (before after : List Worker)
      → Runs js p
      → p.stopping ≡ true
      → p.workers ≡ before ++ idle ∷ after
      → Runs js (record p { workers = before ++ gone ∷ after })
  -- Resize: the Wait of Stop has returned, and Start launches the new workers
  resizes :
      (js : List Job) (p : Pool) (n : ℕ)
      → Runs js p
      → p.stopping ≡ true
      → All Gone p.workers
      → Runs js (record p { workers = launched n; stopping = false })

module _ (test : Job → Bool) where
  abbrev one : Bool → ℕ
  one true = 1
  one false = 0

  -- how many jobs of a list pass the test, and how many are in process
  abbrev pub count : List Job → ℕ
  count [] = 0
  count (j ∷ js) = one (test j) + count js

  abbrev pub in_hand : List Worker → ℕ
  in_hand [] = 0
  in_hand (idle ∷ ws) = in_hand ws
  in_hand (working j ∷ ws) = one (test j) + in_hand ws
  in_hand (gone ∷ ws) = in_hand ws

  count-append : (xs ys : List Job) → count (xs ++ ys) ≡ count xs + count ys
  count-append [] ys = omega arith
  count-append (x ∷ xs) ys = omega (arith, count-append xs ys)

  in_hand-append : (xs ys : List Worker) → in_hand (xs ++ ys) ≡ in_hand xs + in_hand ys
  in_hand-append [] ys = omega arith
  in_hand-append (idle ∷ xs) ys = in_hand-append xs ys
  in_hand-append (working j ∷ xs) ys = omega (arith, in_hand-append xs ys)
  in_hand-append (gone ∷ xs) ys = in_hand-append xs ys

  in_hand-launched : (n : ℕ) → in_hand (launched n) ≡ 0
  in_hand-launched zero = refl
  in_hand-launched (suc n) = in_hand-launched n

  in_hand-Gone : (ws : List Worker) → All Gone ws → in_hand ws ≡ 0
  in_hand-Gone [] h = refl
  in_hand-Gone (idle ∷ ws) h = in_hand-Gone ws h.1
  in_hand-Gone (working j ∷ ws) h = cc (h.0)
  in_hand-Gone (gone ∷ ws) h = in_hand-Gone ws h.1

  -- However the workers take turns, and however often the pool is stopped and resized, every job that was sent is waiting, in process or processed, and as often as it was sent.
  pub Runs-conserved :
      (js : List Job) (p : Pool)
      → Runs js p
      → count p.waiting + (in_hand p.workers + count p.processed) ≡ count js
  Runs-conserved _ _ (starts n) = omega (arith, in_hand-launched n)
  Runs-conserved _ _ (sends js p job r) =
      omega (
        arith,
        Runs-conserved js p r,
        count-append js (job ∷ []),
        count-append p.waiting (job ∷ []),
      )
  Runs-conserved _ _ (takes js p before after job rest r e f) = omega (
    arith,
    Runs-conserved js p r,
    ap in_hand e,
    ap count f,
    in_hand-append before (idle ∷ after),
    in_hand-append before (working job ∷ after),
  )
  Runs-conserved _ _ (returns js p before after job r e) = omega (
    arith,
    Runs-conserved js p r,
    ap in_hand e,
    in_hand-append before (idle ∷ after),
    in_hand-append before (working job ∷ after),
    count-append p.processed (job ∷ []),
  )
  Runs-conserved _ _ (stops js p r) = Runs-conserved js p r
  Runs-conserved _ _ (leaves js p before after r e f) = omega (
    arith,
    Runs-conserved js p r,
    ap in_hand f,
    in_hand-append before (idle ∷ after),
    in_hand-append before (gone ∷ after),
  )
  Runs-conserved _ _ (resizes js p n r e f) =
      omega (arith, Runs-conserved js p r, in_hand-Gone p.workers f, in_hand-launched n)
