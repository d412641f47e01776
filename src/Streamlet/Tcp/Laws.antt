-- ===== src/Streamlet/Tcp/Laws.antt =====
-- What the TCP server has answered whenever it is free, and how an unknown request stops it.
use streamlet_transparency_l.Prelude.{
  ◌≡◌, refl, sym, subst, ap, ◌∙◌, ◌⊎◌, inl, Bool, true, false, Option, none, some, List, [], ◌∷◌,
  ◌++◌, map, arith,
}
use streamlet_transparency_l.Prelude.Bytes.{Bytes}
use streamlet_transparency_l.Streamlet.Tcp.{
  Request, Server, idle, signal, request_kind, accept, serve, deliver, Step, accepts, serves,
  delivers, Reach, here, next,
}

-- Nothing is on its way while the server does not wait; while it waits for the answer to a known
-- request, that request or its answer is, and nothing else.
abbrev pub Agrees :
    Bool → Option Request → List Request → List (Option Request) → List Request → Type 0
Agrees false trigger queue asked answered =
    (trigger ≡ none) × (queue ≡ []) × (asked ≡ map some answered)
Agrees true trigger queue [] answered = ⊥
Agrees true trigger queue (none ∷ asked) answered =
    (trigger ≡ none) × (queue ≡ []) × (asked ≡ map some answered)
Agrees true trigger queue (some request ∷ asked) answered =
    ((trigger ≡ some request) × (queue ≡ []) ⊎ (trigger ≡ none) × (queue ≡ request ∷ []))
    × (asked ≡ map some answered)

abbrev pub Inv : Server → Type 0
Inv s = Agrees s.waiting s.trigger s.queue s.asked s.answered

idle-Inv : Inv idle
unfolding idle
idle-Inv = (refl, refl, refl)

accept_Agrees :
    (kind trigger : Option Request) (queue : List Request) (asked : List (Option Request))
    (answered : List Request)
    → Agrees false trigger queue asked answered
    → Agrees true (signal kind trigger) queue (kind ∷ asked) answered
unfolding signal
accept_Agrees none trigger queue asked answered h = h
accept_Agrees (some request) trigger queue asked answered h = (inl (refl, h.1), h.2)

serve_Agrees :
    (waiting : Bool) (request : Request) (trigger : Option Request) (queue : List Request)
    (asked : List (Option Request)) (answered : List Request)
    → trigger ≡ some request
    → Agrees waiting trigger queue asked answered
    → Agrees waiting none (queue ++ request ∷ []) asked answered
serve_Agrees false request trigger queue asked answered e h = absurd (ground arith)
serve_Agrees true request trigger queue [] answered e h = h
serve_Agrees true request trigger queue (none ∷ asked) answered e h = absurd (ground arith)
serve_Agrees true request trigger queue (some r ∷ asked) answered e h = ground arith

deliver_Agrees :
    (answer : Request) (trigger : Option Request) (queue rest : List Request)
    (asked : List (Option Request)) (answered : List Request)
    → queue ≡ answer ∷ rest
    → Agrees true trigger queue asked answered
    → Agrees false trigger rest asked (answer ∷ answered)
deliver_Agrees answer trigger queue rest [] answered e h = absurd h
deliver_Agrees answer trigger queue rest (none ∷ asked) answered e h = absurd (ground arith)
deliver_Agrees answer trigger queue rest (some r ∷ asked) answered e h = ground arith

Step-Inv : {s t : Server} → Step s t → Inv s → Inv t
unfolding accept serve deliver
Step-Inv {s} (accepts msg free e) v = subst Inv (sym e) (
    accept_Agrees (request_kind msg) s.trigger s.queue s.asked s.answered
      (subst (λ w. Agrees w s.trigger s.queue s.asked s.answered) free v))
Step-Inv {s} (serves request f e) v =
    subst Inv (sym e) (serve_Agrees s.waiting request s.trigger s.queue s.asked s.answered f v)
Step-Inv {s} (delivers answer rest busy f e) v = subst Inv (sym e) (
    deliver_Agrees answer s.trigger s.queue rest s.asked s.answered f
      (subst (λ w. Agrees w s.trigger s.queue s.asked s.answered) busy v))

Reach-Inv : {s t : Server} → Reach s t → Inv s → Inv t
Reach-Inv here v = v
Reach-Inv (next reach step) v = Step-Inv step (Reach-Inv reach v)

-- Whenever the server is free, it has answered every request it read, each with an answer of the
-- kind asked for and in the order of the requests, and nothing is left in its channels.
pub Reach-answers :
    (s : Server)
    → Reach idle s
    → s.waiting ≡ false
    → (s.asked ≡ map some s.answered) × (s.trigger ≡ none) × (s.queue ≡ [])
Reach-answers s reach free =
    let v =
      subst (λ w. Agrees w s.trigger s.queue s.asked s.answered) free (Reach-Inv reach idle-Inv) in
    (v.2, v.0, v.1)

-- The server waits for an answer that nobody will send.
no-Step : (s t : Server) → s.waiting ≡ true → s.trigger ≡ none → s.queue ≡ [] → Step s t → ⊥
no-Step s t busy quiet empty (accepts msg free e) = ground arith
no-Step s t busy quiet empty (serves request f e) = ground arith
no-Step s t busy quiet empty (delivers answer rest b f e) = ground arith

-- A request that is neither "chain" nor "block", read by a free server, stops it for good: it
-- waits from then on, and nothing changes any more.
pub unknown_request_wedges :
    (s : Server) (msg : Bytes) (t : Server)
    → Reach idle s
    → s.waiting ≡ false
    → request_kind msg ≡ none
    → Reach (accept s msg) t
    → (t ≡ accept s msg) × (t.waiting ≡ true)
unfolding accept signal
unknown_request_wedges s msg t reach free unknown here = (refl, refl)
unknown_request_wedges s msg t reach free unknown (next {t = u} more step) =
    let (same, busy) = unknown_request_wedges s msg u reach free unknown more in
    let clear = Reach-answers s reach free in
    absurd (
      no-Step u t busy
        (ap (λ (r : Server). r.trigger) same ∙ ap (λ k. signal k s.trigger) unknown ∙ clear.1)
        (ap (λ (r : Server). r.queue) same ∙ clear.2) step)
