-- ===== src/Analyzer/Callers/Ends.antt =====
-- The search over the callers ends: every round shortens the queue or visits a function.
use perfscope.Base.{
  ℕ, zero, suc, ◌+◌, ◌≤◌, ◌<◌, ◌≡◌, refl, ◌≢◌, inl, inr, true, false, ◌&&◌, List, [], ◌∷◌, ◌++◌,
  All, Option, some, arith, ltb, leb, ◌==◌, if◌then◌else◌, Bool-cases, length, length-append, inc,
  contains, unvisited, unvisited_mono, unvisited_visit,
}
use perfscope.Base.Int.{pos}
use perfscope.Analyzer.Risk.{Hotness, cold, regular, hot, is_hot}
use perfscope.Analyzer.Callers.{
  CallSite, CallGraph, analyze, Pushed, called_in_loop, pushed, looks_inside, site_in_loop,
  push_callers, caller_hot, search_loop, calc_caller_hotness,
}

-- The call sites of the functions that are not visited yet.
abbrev pub pending : CallGraph → List ℕ → List ℕ → ℕ
pending graph visited fs = unvisited (λ f. length (graph.call_sites f)) visited fs

-- The callers of every function in the list are in the list.
abbrev pub IsClosed : CallGraph → List ℕ → Type 0
IsClosed graph fs =
    (f : ℕ) → contains fs f ≡ true → All (λ s. contains fs (s.caller) ≡ true) (graph.call_sites f)

-- Every function that waits is in the list.
abbrev Queued : List ℕ → List (ℕ × ℕ) → Type 0
Queued fs queue = All (λ item. contains fs (item.0) ≡ true) queue

-- The queue behind the call sites is no longer than `n`, and stays in the list.
abbrev Grown : List ℕ → ℕ → Pushed → Type 0
Grown fs n (called_in_loop _) = Unit {0}
Grown fs n (pushed _ queue) = (length queue ≤ n) × Queued fs queue

Grown-mono : (fs : List ℕ) (m n : ℕ) (p : Pushed) → m ≤ n → Grown fs m p → Grown fs n p
Grown-mono fs m n (called_in_loop _) h w = tt
Grown-mono fs m n (pushed _ queue) h (l, w) = (omega arith, w)

Queued-append :
    (fs : List ℕ) (queue : List (ℕ × ℕ)) (item : ℕ × ℕ)
    → Queued fs queue
    → contains fs (item.0) ≡ true
    → Queued fs (queue ++ item ∷ [])
Queued-append fs [] item w m = (m, tt)
Queued-append fs (x ∷ queue) item w m = (w.0, Queued-append fs queue item w.1 m)

push_callers_lem :
    (graph : CallGraph) (fs visited : List ℕ) (depth : ℕ) (analyzed : List ℕ) (queue : List (ℕ × ℕ))
    (sites : List CallSite)
    → All (λ s. contains fs (s.caller) ≡ true) sites
    → Queued fs queue
    → Grown fs (length queue + length sites) (push_callers graph visited depth analyzed queue sites)
unfolding push_callers
push_callers_lem graph fs visited depth analyzed queue [] m w = (omega arith, w)
push_callers_lem graph fs visited depth analyzed queue (site ∷ sites) m w =
    let next = if looks_inside graph site then analyze analyzed site.caller else analyzed in
    let longer = queue ++ (site.caller, depth + 1) ∷ [] in
    let skip = push_callers_lem graph fs visited depth analyzed queue sites m.1 w in
    let push =
      push_callers_lem graph fs visited depth next longer sites m.1
        (Queued-append fs queue (site.caller, depth + 1) w m.0) in
    elim (Bool-cases (contains visited site.caller)) [
      | inl e ↦
          rw (push_callers, e)
            (Grown-mono fs (length queue + length sites) (length queue + suc (length sites))
              (push_callers graph visited depth analyzed queue sites) (omega arith) skip)
      | inr e ↦ elim (Bool-cases (looks_inside graph site && site_in_loop graph next site)) [
        | inl f ↦ rw (push_callers, e, f) tt
        | inr f ↦
            rw (push_callers, e, f)
              (Grown-mono fs (length longer + length sites) (length queue + suc (length sites))
                (push_callers graph visited depth next longer sites)
                (omega (arith, length-append queue ((site.caller, depth + 1) ∷ []))) push)
      ]
    ]

-- An answer that is not cold.
abbrev pub Answers : Option (Hotness × List ℕ) → Type 0
Answers found = (h : Hotness) × (analyzed : List ℕ) × (found ≡ some (h, analyzed)) × (h ≢ cold)

pushed-Answers :
    (fs : List ℕ) (n : ℕ) (next : List ℕ → List (ℕ × ℕ) → Option (Hotness × List ℕ)) (p : Pushed)
    → ((analyzed : List ℕ) (queue : List (ℕ × ℕ))
        → length queue ≤ n
        → Queued fs queue
        → Answers (next analyzed queue))
    → Grown fs n p
    → Answers (elim p [
      | called_in_loop analyzed ↦ some (hot, analyzed)
      | pushed analyzed queue ↦ next analyzed queue
    ])
pushed-Answers fs n next (called_in_loop analyzed) again w = (hot, analyzed, refl, λ c. cc c)
pushed-Answers fs n next (pushed analyzed queue) again w = again analyzed queue w.0 w.1

search_loop_lem :
    (fuel : ℕ) (graph : CallGraph) (fs : List ℕ) (level : ℕ) (queue : List (ℕ × ℕ))
    (visited analyzed : List ℕ) (callers : ℕ)
    → IsClosed graph fs
    → Queued fs queue
    → length queue + pending graph visited fs < fuel
    → Answers (search_loop fuel graph level queue visited analyzed callers)
unfolding search_loop
search_loop_lem zero graph fs level queue visited analyzed callers closed w h = absurd (omega arith)
search_loop_lem (suc fuel) graph fs level [] visited analyzed callers closed w h =
    elim (Bool-cases (ltb caller_hot callers)) [
      | inl e ↦ (hot, analyzed, rw e refl, λ c. cc c)
      | inr e ↦ (regular, analyzed, rw e refl, λ c. cc c)
    ]
search_loop_lem (suc fuel) graph fs level ((f, depth) ∷ queue) visited analyzed callers closed w h =
    elim (Bool-cases (contains visited f)) [
      | inl e ↦
          rw (search_loop, e)
            (search_loop_lem fuel graph fs level queue visited analyzed (inc callers) closed w.1
              (omega arith))
      | inr e ↦ elim (Bool-cases (is_hot (graph.name_hotness f))) [
        | inl g ↦ (hot, analyzed, rw (search_loop, e, g) refl, λ c. cc c)
        | inr g ↦ elim (Bool-cases (leb level depth)) [
          | inl k ↦
              rw (search_loop, e, g, k)
                (search_loop_lem fuel graph fs level queue (f ∷ visited) analyzed (inc callers)
                  closed w.1
                  (omega (arith, unvisited_mono (λ k. length (graph.call_sites k)) visited f fs)))
          | inr k ↦
              rw (search_loop, e, g, k)
                (pushed-Answers fs (length queue + length (graph.call_sites f))
                  (λ analyzed' queue'.
                    search_loop fuel graph level queue' (f ∷ visited) analyzed' (inc callers))
                  (push_callers graph (f ∷ visited) depth analyzed queue (graph.call_sites f))
                  (λ analyzed' queue' short q.
                    search_loop_lem fuel graph fs level queue' (f ∷ visited) analyzed' (inc callers)
                      closed q
                      (omega (
                        arith,
                        unvisited_visit (λ k. length (graph.call_sites k)) visited f fs w.0 e,
                      )))
                  (push_callers_lem graph fs (f ∷ visited) depth analyzed queue (graph.call_sites f)
                    (closed f w.0) w.1))
        ]
      ]
    ]

-- In a call graph whose callers all stand in a list with the function, the search over the callers
-- ends: fuel for one round per call site of the listed functions and two more is enough. For a
-- positive level its answer is hot or regular, never cold.
pub calc_caller_hotness_decides :
    (fuel : ℕ) (graph : CallGraph) (fs : List ℕ) (f level : ℕ) (analyzed : List ℕ)
    → IsClosed graph fs
    → contains fs f ≡ true
    → 0 < level
    → pending graph [] fs + 1 < fuel
    → Answers (calc_caller_hotness fuel graph (some f) (pos level) analyzed)
unfolding calc_caller_hotness
calc_caller_hotness_decides fuel graph fs f level analyzed closed m positive h =
    let named : (level == 0) ≡ false = ground arith in
    rw (calc_caller_hotness, named)
      (search_loop_lem fuel graph fs level ((f, 1) ∷ []) [] analyzed 0 closed (m, tt) (omega arith))
