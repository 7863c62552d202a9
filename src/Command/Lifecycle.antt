-- ===== src/Command/Lifecycle.antt =====
-- cmd/reelm/main.go: the end of runServe, from the start of the server on. The server runs in a
-- goroutine of its own, so its end, the signals and what runServe does interleave as steps.
use mathlib.Core.Path.{subst}
use reelm.Base.{
  ◌⊎◌, inl, inr, ℕ, suc, ◌+◌, ◌≤◌, ◌≡◌, refl, sym, ap, ◌∙◌, Bool, true, false, Option, none, some,
  List, [], ◌∷◌, arith, Text, length,
}
use reelm.Proxy.Server.{ListenError, start, shutdown}

-- The goroutine of the server: it listens, or Start has put its result into the channel.
pub data Goroutine : Type 0 where
  listening : Goroutine
  finished : Option Text → Goroutine

-- runServe: in the select, in Shutdown after a signal, at a return whose deferred calls still run, or
-- returned with its error.
pub data Phase : Type 0 where
  selecting : Phase
  stopping : Phase
  returning : Option Text → Phase
  returned : Option Text → Phase

-- The deferred calls: cancel(), and diskStore.Close()
pub data Deferred : Type 0 where
  cancel : Deferred
  close_store : Deferred

pub record Process : Type 0 where
  pub goroutine : Goroutine
  pub phase : Phase
  -- whether stopChan holds a signal
  pub signal : Bool
  -- what http.Server.Shutdown returned, once it was called
  pub shut : Option (Option Text)
  -- the deferred calls, the last one first
  pub deferred : List Deferred
  -- how often the store was closed
  pub closes : ℕ

abbrev pub serving : Process
serving = record {
  goroutine = listening;
  phase = selecting;
  signal = false;
  shut = none;
  deferred = close_store ∷ [];
  closes = 0;
}

-- One deferred call runs.
unfoldable pub run_deferred : Deferred → List Deferred → Process → Process
run_deferred cancel ds p = record p { deferred = ds }
run_deferred close_store ds p = record p { deferred = ds; closes = suc p.closes }

-- `case err := <-serverErr: return err`
unfoldable pub return_error : Option Text → Process → Process
return_error e p = record p { phase = returning e }

-- `case sig := <-stopChan`, up to the call of Shutdown
unfoldable pub begin_shutdown : Process → Process
begin_shutdown p = record p { phase = stopping; signal = false; deferred = cancel ∷ p.deferred }

-- The end of that case, from what http.Server.Shutdown returned
unfoldable pub end_shutdown : Option Text → Process → Process
end_shutdown r p = record p { phase = returning (shutdown r); shut = some r }

pub data Step (p : Process) : Process → Type 0 where
  server_ends :
      (e : ListenError)
      → p.goroutine ≡ listening
      → Step p (record p { goroutine = finished (start e) })
  signal_comes : p.signal ≡ false → Step p (record p { signal = true })
  take_error :
      (e : Option Text) → p.phase ≡ selecting → p.goroutine ≡ finished e → Step p (return_error e p)
  take_signal : p.phase ≡ selecting → p.signal ≡ true → Step p (begin_shutdown p)
  shuts_down : (r : Option Text) → p.phase ≡ stopping → Step p (end_shutdown r p)
  defers :
      (e : Option Text) (d : Deferred) (ds : List Deferred)
      → p.phase ≡ returning e
      → p.deferred ≡ d ∷ ds
      → Step p (run_deferred d ds p)
  leaves :
      (e : Option Text)
      → p.phase ≡ returning e
      → p.deferred ≡ []
      → Step p (record p { phase = returned e })

pub data Reach (p : Process) : Process → Type 0 where
  here : Reach p p
  next : {q r : Process} → Reach p q → Step q r → Reach p r

abbrev stores : List Deferred → ℕ
stores [] = 0
stores (cancel ∷ ds) = stores ds
stores (close_store ∷ ds) = suc (stores ds)

-- The error that runServe gives: of Shutdown, if it was called, and else what Start put into the channel.
abbrev pub IsExplained : Option (Option Text) → Goroutine → Option Text → Type 0
IsExplained none g e = g ≡ finished e
IsExplained (some r) g e = e ≡ shutdown r

-- What holds of the other fields in a phase
abbrev pub Tidy : Phase → Process → Type 0
Tidy selecting p = (p.deferred ≡ close_store ∷ []) × (p.closes ≡ 0) × (p.shut ≡ none)
Tidy stopping p = (p.deferred ≡ cancel ∷ close_store ∷ []) × (p.closes ≡ 0) × (p.shut ≡ none)
Tidy (returning e) p = (p.closes + stores p.deferred ≡ 1) × IsExplained p.shut p.goroutine e
Tidy (returned e) p = (p.closes ≡ 1) × IsExplained p.shut p.goroutine e

abbrev pub IsTidy : Process → Type 0
IsTidy p = Tidy p.phase p

IsExplained-ended :
    (s : Option (Option Text)) (g : Goroutine) (e r : Option Text)
    → g ≡ listening
    → IsExplained s g e
    → IsExplained s (finished r) e
IsExplained-ended none g e r h k = cc
IsExplained-ended (some x) g e r h k = k

Tidy-ended :
    (f : Phase) (p : Process) (r : Option Text)
    → p.goroutine ≡ listening
    → Tidy f p
    → Tidy f (record p { goroutine = finished r })
Tidy-ended selecting p r h k = k
Tidy-ended stopping p r h k = k
Tidy-ended (returning e) p r h (a, b) = (a, IsExplained-ended p.shut p.goroutine e r h b)
Tidy-ended (returned e) p r h (a, b) = (a, IsExplained-ended p.shut p.goroutine e r h b)

Tidy-signal : (f : Phase) (p : Process) → Tidy f p → Tidy f (record p { signal = true })
Tidy-signal selecting p k = k
Tidy-signal stopping p k = k
Tidy-signal (returning e) p k = k
Tidy-signal (returned e) p k = k

at_phase : (p : Process) (f : Phase) → p.phase ≡ f → IsTidy p → Tidy f p
at_phase p f h k = subst (λ g. Tidy g p) h k

Tidy-deferred :
    (p : Process) (e : Option Text) (d : Deferred) (ds : List Deferred)
    → p.deferred ≡ d ∷ ds
    → Tidy (returning e) p
    → Tidy (returning e) (run_deferred d ds p)
unfolding run_deferred
Tidy-deferred p e cancel ds h (a, b) =
    (ap (λ (l : List Deferred). p.closes + stores l) (sym h) ∙ a, b)
Tidy-deferred p e close_store ds h (a, b) =
    let n : p.closes + suc (stores ds) ≡ 1 =
      ap (λ (l : List Deferred). p.closes + stores l) (sym h) ∙ a in
    (omega arith, b)

-- The phase is as it was: a deferred call is only run.
run_deferred-phase :
    (d : Deferred) (ds : List Deferred) (p : Process) → (run_deferred d ds p).phase ≡ p.phase
unfolding run_deferred
run_deferred-phase cancel ds p = refl
run_deferred-phase close_store ds p = refl

Step-IsTidy : {p q : Process} → Step p q → IsTidy p → IsTidy q
unfolding return_error begin_shutdown end_shutdown
Step-IsTidy {p} (server_ends e g) k = Tidy-ended p.phase p (start e) g k
Step-IsTidy {p} (signal_comes g) k = Tidy-signal p.phase p k
Step-IsTidy {p} (take_error e f g) k =
    let (d, c, s) = at_phase p selecting f k in (simp (d, c) (omega arith), simp s g)
Step-IsTidy {p} (take_signal f g) k =
    let (d, c, s) = at_phase p selecting f k in (ap (λ (l : List Deferred). cancel ∷ l) d, c, s)
Step-IsTidy {p} (shuts_down r f) k =
    let (d, c, s) = at_phase p stopping f k in (simp (d, c) (omega arith), refl)
Step-IsTidy {p} (defers e d ds f g) k =
    subst (λ f. Tidy f (run_deferred d ds p)) (sym (run_deferred-phase d ds p ∙ f))
      (Tidy-deferred p e d ds g (at_phase p (returning e) f k))
Step-IsTidy {p} (leaves e f g) k =
    let (a, b) = at_phase p (returning e) f k in
    let n : p.closes + 0 ≡ 1 = ap (λ (l : List Deferred). p.closes + stores l) (sym g) ∙ a in
    (omega arith, b)

-- In every state that runServe reaches from the start of the server: the store is open as long as
-- runServe waits or shuts the server down; a return runs the deferred calls so that the store is
-- closed once when runServe has returned; and the error that it gives is the one that Start put into
-- the channel, if Shutdown was not called, and else what Shutdown makes of its own result.
pub Reach-IsTidy : {p : Process} → Reach serving p → IsTidy p
Reach-IsTidy here = (refl, refl, refl)
Reach-IsTidy (next r s) = Step-IsTidy s (Reach-IsTidy r)

abbrev pub steps : {p q : Process} → Reach p q → ℕ
steps here = 0
steps (next r s) = suc (steps r)

-- A step of runServe, and not of the server's goroutine or of a sender of signals
abbrev pub is_own : {p q : Process} → Step p q → Bool
is_own (server_ends e g) = false
is_own (signal_comes g) = false
is_own (take_error e f g) = true
is_own (take_signal f g) = true
is_own (shuts_down r f) = true
is_own (defers e d ds f g) = true
is_own (leaves e f g) = true

-- runServe waits in the select, for the server that listens and for a signal.
pub record Waits (p : Process) : Type 0 where
  pub selects : p.phase ≡ selecting
  pub listens : p.goroutine ≡ listening
  pub quiet : p.signal ≡ false

abbrev pub HasReturned : Phase → Type 0
HasReturned selecting = ⊥
HasReturned stopping = ⊥
HasReturned (returning e) = ⊥
HasReturned (returned e) = Unit

-- What is left to be done: each step lowers it.
abbrev unfinished : Goroutine → ℕ
unfinished listening = 1
unfinished (finished e) = 0

abbrev room : Bool → ℕ
room true = 0
room false = 1

abbrev phases_left : Phase → ℕ
phases_left selecting = 5
phases_left stopping = 2
phases_left (returning e) = 1
phases_left (returned e) = 0

abbrev left : Process → ℕ
left p = unfinished p.goroutine + room p.signal + phases_left p.phase + length p.deferred

Step-left : {p q : Process} → Step p q → suc (left q) ≤ left p
unfolding return_error begin_shutdown end_shutdown run_deferred
Step-left (server_ends e g) = omega (arith, ap unfinished g)
Step-left (signal_comes g) = omega (arith, ap room g)
Step-left (take_error e f g) = omega (arith, ap phases_left f)
Step-left (take_signal f g) = omega (arith, ap phases_left f, ap room g)
Step-left (shuts_down r f) = omega (arith, ap phases_left f)
Step-left (defers e cancel ds f g) = omega (arith, ap (λ (l : List Deferred). length l) g)
Step-left (defers e close_store ds f g) = omega (arith, ap (λ (l : List Deferred). length l) g)
Step-left (leaves e f g) = omega (arith, ap phases_left f)

steps-left : {p q : Process} (r : Reach p q) → steps r + left q ≤ left p
steps-left here = omega arith
steps-left (next r s) = omega (arith, steps-left r, Step-left s)

-- Where a process goes on by itself, or why it does not
abbrev pub GoesOn : Process → Type 0
GoesOn p = Waits p ⊎ (HasReturned p.phase ⊎ ((q : Process) × (s : Step p q) × (is_own s ≡ true)))

selecting-GoesOn :
    (p : Process) (g : Goroutine) (b : Bool)
    → p.phase ≡ selecting
    → p.goroutine ≡ g
    → p.signal ≡ b
    → GoesOn p
selecting-GoesOn p (finished e) b f g h = inr (inr (_, take_error e f g, refl))
selecting-GoesOn p listening true f g h = inr (inr (_, take_signal f h, refl))
selecting-GoesOn p listening false f g h = inl (record { selects = f; listens = g; quiet = h })

returning-GoesOn :
    (p : Process) (e : Option Text) (ds : List Deferred)
    → p.phase ≡ returning e
    → p.deferred ≡ ds
    → GoesOn p
returning-GoesOn p e [] f g = inr (inr (_, leaves e f g, refl))
returning-GoesOn p e (d ∷ ds) f g = inr (inr (_, defers e d ds f g, refl))

phase-GoesOn : (p : Process) (f : Phase) → p.phase ≡ f → GoesOn p
phase-GoesOn p selecting f = selecting-GoesOn p p.goroutine p.signal f refl refl
phase-GoesOn p stopping f = inr (inr (_, shuts_down none f, refl))
phase-GoesOn p (returning e) f = returning-GoesOn p e p.deferred f refl
phase-GoesOn p (returned e) f = inr (inl (subst HasReturned (sym f) tt))

-- runServe comes to its return: a run from the start of the server has at most eight steps, those of
-- the server's goroutine and the arrivals of signals in stopChan included, and in every state that
-- it reaches runServe can take a step itself, unless it has returned or waits in the select while
-- the server listens and no signal is there.
pub Reach-GoesOn : {p : Process} (r : Reach serving p) → (steps r ≤ 8) × GoesOn p
Reach-GoesOn {p} r = (omega (arith, steps-left r), phase-GoesOn p p.phase refl)
