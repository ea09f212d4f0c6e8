-- ===== src/Tun/Loop/Stopping.antt =====
-- `Start` and `Stop` of internal/tun/loop.go, with the goroutine of the loop as steps between them.
-- The context may end at any time, by `Stop` or by its parent. One call of `Start` is modelled, and
-- the wait of `Stop` ends when the wait group is at 0 or when its timer fires.
use gonet.Prelude.{
  ℕ, suc, ◌+◌, ◌-◌, ◌≤◌, ◌≡◌, refl, sym, ◌∙◌, Bool, true, false, List, [], ◌∷◌, ◌++◌, arith,
  if◌then◌else◌, length, replicate, length-append, ok, copy,
}
use mathlib.Core.Path.{subst}
use gonet.Tun.Loop.{ReadLoop, add_packet, add_error, packet_of, new_read_loop}

-- Where the goroutine of the loop is: in front of the test of the context, in `Read`, or returned.
pub data Place : Type 0 where
  checking reading gone : Place

pub record Life : Type 0 where
  pub read_loop : ReadLoop
  pub has_cancel : Bool
  -- `r.ctx.Done()` is closed.
  pub done : Bool
  -- The wait group.
  pub waiting : ℕ
  pub place : Place
  -- The packets handed over.
  pub handed : List (List ℕ)

unfoldable pub new_life : ℕ → Life
new_life buf_size = record {
  read_loop = new_read_loop buf_size;
  has_cancel = false;
  done = false;
  waiting = 0;
  place = gone;
  handed = [];
}

unfoldable pub start_loop : Life → Life
start_loop s = record s {
  has_cancel = true;
  done = false;
  waiting = s.waiting + 1;
  place = checking;
}

-- `if r.cancel != nil { r.cancel() }`
unfoldable pub signal : Life → Life
signal s = if s.has_cancel then record s { done = true } else s

-- `defer r.wg.Done()`
unfoldable pub return_loop : Life → Life
return_loop s = record s { place = gone; waiting = s.waiting - 1 }

-- `packetsRead.Add`, `bytesRead.Add` and the `go` statement.
unfoldable pub hand : ℕ → List ℕ → Life → Life
hand n packet s = record s {
  read_loop = add_packet n s.read_loop;
  place = checking;
  handed = s.handed ++ (packet ∷ []);
}

-- One step of the loop's goroutine.
pub data LoopStep : Life → Life → Type 0 where
  keeps_on :
      {s : Life} → s.place ≡ checking → s.done ≡ false → LoopStep s (record s { place = reading })
  sees_end : {s : Life} → s.place ≡ checking → s.done ≡ true → LoopStep s (return_loop s)
  takes :
      {s : Life} (n : ℕ) (written packet : List ℕ)
      → s.place ≡ reading
      → packet_of {E = Unit {0}} n (copy (replicate s.read_loop.buf_size 0) written) ≡ ok packet
      → LoopStep s (hand n packet s)
  is_interrupted : {s : Life} → s.place ≡ reading → LoopStep s (record s { place = checking })
  fails_cleanly : {s : Life} → s.place ≡ reading → s.done ≡ true → LoopStep s (return_loop s)
  fails :
      {s : Life}
      → s.place ≡ reading
      → s.done ≡ false
      → LoopStep s (return_loop (record s { read_loop = add_error s.read_loop }))

-- Steps of the loop, counted, with the context ending in between at any time.
pub data Run : ℕ → Life → Life → Type 0 where
  stays : {s : Life} → Run 0 s s
  ended : {n : ℕ} {s s' : Life} → Run n (record s { done = true }) s' → Run n s s'
  moves : {n : ℕ} {s t s' : Life} → LoopStep s t → Run n t s' → Run (suc n) s s'

-- The end of `Stop`: its result is an error where the timer fires first.
pub data StopReturns (s : Life) : Bool → Type 0 where
  gracefully : s.waiting ≡ 0 → StopReturns s true
  timed_out : StopReturns s false

-- How many steps the loop has left behind the end of the context.
abbrev left_of : Place → ℕ
left_of checking = 1
left_of reading = 2
left_of gone = 0

-- How many packets it still hands over.
abbrev packets_left : Place → ℕ
packets_left checking = 0
packets_left reading = 1
packets_left gone = 0

-- The wait group counts the goroutine.
abbrev running_at : Place → ℕ
running_at checking = 1
running_at reading = 1
running_at gone = 0

abbrev pub IsCounted : Life → Type 0
IsCounted s = s.waiting ≡ running_at s.place

-- One step behind the end of the context.
abbrev Closes : Life → Life → Type 0
Closes s t =
    (t.done ≡ true)
    × (suc (left_of t.place) ≤ left_of s.place)
    × (length t.handed + packets_left t.place ≤ length s.handed + packets_left s.place)

LoopStep-Closes : (s t : Life) → s.done ≡ true → LoopStep s t → Closes s t
unfolding return_loop hand
LoopStep-Closes s t d (keeps_on at e) = absurd (cc (d, e))
LoopStep-Closes s t d (sees_end at e) = (d, rw at (omega arith), rw at (omega arith))
LoopStep-Closes s t d (takes n written packet at e) =
    (d, rw at (omega arith), rw at (omega (arith, length-append s.handed (packet ∷ []))))
LoopStep-Closes s t d (is_interrupted at) = (d, rw at (omega arith), rw at (omega arith))
LoopStep-Closes s t d (fails_cleanly at e) = (d, rw at (omega arith), rw at (omega arith))
LoopStep-Closes s t d (fails at e) = absurd (cc (d, e))

Run-Closes :
    (n : ℕ) (s s' : Life)
    → s.done ≡ true
    → Run n s s'
    → (n + left_of s'.place ≤ left_of s.place)
      × (length s'.handed + packets_left s'.place ≤ length s.handed + packets_left s.place)
Run-Closes n s s' d stays = (omega arith, omega arith)
Run-Closes n s s' d (ended run) = Run-Closes n (record s { done = true }) s' refl run
Run-Closes n s s' d (moves {n = m} {t = t} step run) =
    let (d', less, fewer) = LoopStep-Closes s t d step in
    let (less', fewer') = Run-Closes m t s' d' run in
    (omega (arith, less, less'), omega (arith, fewer, fewer'))

-- What the steps keep of a started loop.
abbrev IsStarted : Life → Type 0
IsStarted s = IsCounted s × (s.has_cancel ≡ true)

LoopStep-IsStarted : (s t : Life) → IsStarted s → LoopStep s t → IsStarted t
unfolding return_loop hand
LoopStep-IsStarted s t (c, h) (keeps_on at e) = (rw at at c, h)
LoopStep-IsStarted s t (c, h) (sees_end at e) = (omega (arith, rw at at c), h)
LoopStep-IsStarted s t (c, h) (takes n written packet at e) = (rw at at c, h)
LoopStep-IsStarted s t (c, h) (is_interrupted at) = (rw at at c, h)
LoopStep-IsStarted s t (c, h) (fails_cleanly at e) = (omega (arith, rw at at c), h)
LoopStep-IsStarted s t (c, h) (fails at e) = (omega (arith, rw at at c), h)

Run-IsStarted : (n : ℕ) (s s' : Life) → IsStarted s → Run n s s' → IsStarted s'
Run-IsStarted n s s' h stays = h
Run-IsStarted n s s' h (ended run) = Run-IsStarted n (record s { done = true }) s' h run
Run-IsStarted n s s' h (moves {n = m} {t = t} step run) =
    Run-IsStarted m t s' (LoopStep-IsStarted s t h step) run

waited_out : (p : Place) → running_at p ≡ 0 → p ≡ gone
waited_out checking e = absurd (omega (arith, e))
waited_out reading e = absurd (omega (arith, e))
waited_out gone e = refl

LoopStep-gone : (s t : Life) → s.place ≡ gone → LoopStep s t → ⊥
LoopStep-gone s t g (keeps_on at e) = absurd (cc (g, at))
LoopStep-gone s t g (sees_end at e) = absurd (cc (g, at))
LoopStep-gone s t g (takes n written packet at e) = absurd (cc (g, at))
LoopStep-gone s t g (is_interrupted at) = absurd (cc (g, at))
LoopStep-gone s t g (fails_cleanly at e) = absurd (cc (g, at))
LoopStep-gone s t g (fails at e) = absurd (cc (g, at))

Run-gone : (n : ℕ) (s s' : Life) → s.place ≡ gone → Run n s s' → (n ≡ 0) × (s'.handed ≡ s.handed)
Run-gone n s s' g stays = (refl, refl)
Run-gone n s s' g (ended run) = Run-gone n (record s { done = true }) s' g run
Run-gone n s s' g (moves {t = t} step run) = absurd (LoopStep-gone s t g step)

signal_started : (s : Life) → s.has_cancel ≡ true → signal s ≡ record s { done = true }
unfolding signal
signal_started s h = rw h refl

-- At most two steps and one packet during `Stop`, and none behind it.
abbrev pub IsStopped : ℕ → ℕ → Life → Life → Life → Type 0
IsStopped m k running returned later =
    (m ≤ 2)
    × (length returned.handed ≤ length running.handed + 1)
    × (returned.place ≡ gone)
    × (k ≡ 0)
    × (later.handed ≡ returned.handed)

two_at_most : (p : Place) → left_of p ≤ 2
two_at_most checking = omega arith
two_at_most reading = omega arith
two_at_most gone = omega arith

one_at_most : (p : Place) → packets_left p ≤ 1
one_at_most checking = omega arith
one_at_most reading = omega arith
one_at_most gone = omega arith

-- A loop that is started runs for any number of steps, then `Stop` cancels it, and some steps later
-- `Stop` returns without an error. Between the two the loop takes at most two steps and hands over
-- at most one packet more; behind the return it has ended, takes no further step and hands over
-- nothing.
pub stop_lem :
    (buf_size n m k : ℕ) (running returned later : Life)
    → Run n (start_loop (new_life buf_size)) running
    → Run m (signal running) returned
    → StopReturns returned true
    → Run k returned later
    → IsStopped m k running returned later
unfolding start_loop new_life
stop_lem buf_size n m k running returned later before during (gracefully none_left) after =
    let started = Run-IsStarted n (start_loop (new_life buf_size)) running (refl, refl) before in
    let over = subst (λ s. Run m s returned) (signal_started running started.1) during in
    let closed = Run-Closes m (record running { done = true }) returned refl over in
    let counted = Run-IsStarted m (record running { done = true }) returned started over in
    let is_gone = waited_out returned.place (sym counted.0 ∙ none_left) in
    let rest = Run-gone k returned later is_gone after in
    (
      omega (arith, closed.0, two_at_most running.place),
      omega (arith, closed.1, one_at_most running.place),
      is_gone,
      rest.0,
      rest.1,
    )
