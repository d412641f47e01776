-- ===== src/Streamlet/Tcp.antt =====
-- lib.rs, `run_tcp_server` with the two channels between it and the event loop: the watch channel
-- that carries the kind of a request, and the queue of answers. A request is a string here: bytes
-- that are no UTF-8 end the thread by a panic, which is not modelled.
pub mod Laws
use streamlet_transparency_l.Prelude.{
  map, ◌≡◌, ◌≢◌, refl, ◌⊎◌, inl, inr, Bool, true, false, Option, none, some, List, [], ◌∷◌, ◌++◌,
  arith, ◌∙◌, sym, ap,
}
use streamlet_transparency_l.Prelude.Tests.{if◌then◌else◌}
use streamlet_transparency_l.Prelude.Bytes.{Bytes, bytes, bytes_eq}

pub data Request : Type 0 where
  chain block : Request

-- The match on the bytes of a request.
unfoldable pub request_kind : Bytes → Option Request
request_kind msg =
    if bytes_eq msg (bytes "chain")
    then some Request.chain
    else if bytes_eq msg (bytes "block")
    then some Request.block
    else none

-- `waiting`: the server has read a request and waits for an answer. `trigger` is a change of the
-- watch channel that the loop has not yet seen. An answer in `queue` is known by its request.
pub record Server : Type 0 where
  pub waiting : Bool
  pub trigger : Option Request
  pub queue : List Request
  -- The requests read and the answers written, newest first.
  pub asked : List (Option Request)
  pub answered : List Request

unfoldable pub idle : Server
idle = record { waiting = false; trigger = none; queue = []; asked = []; answered = [] }

-- A value sent on a watch channel takes the place of the one before it.
unfoldable pub signal : Option Request → Option Request → Option Request
signal none trigger = trigger
signal (some request) trigger = some request

unfoldable pub accept : Server → Bytes → Server
unfolding signal request_kind
accept s msg = record s {
  waiting = true;
  trigger = signal (request_kind msg) s.trigger;
  asked = request_kind msg ∷ s.asked;
}

-- The loop answers what the watch channel holds.
unfoldable pub serve : Server → Request → Server
serve s request = record s { trigger = none; queue = s.queue ++ request ∷ [] }

unfoldable pub deliver : Server → Request → List Request → Server
deliver s answer rest = record s { waiting = false; queue = rest; answered = answer ∷ s.answered }

pub data Step (s : Server) (t : Server) : Type 0 where
  accepts : (msg : Bytes) → s.waiting ≡ false → t ≡ accept s msg → Step s t
  serves : (request : Request) → s.trigger ≡ some request → t ≡ serve s request → Step s t
  delivers :
      (answer : Request) (rest : List Request)
      → s.waiting ≡ true
      → s.queue ≡ answer ∷ rest
      → t ≡ deliver s answer rest
      → Step s t

pub data Reach (s : Server) : Server → Type 0 where
  here : Reach s s
  next : {t u : Server} → Reach s t → Step t u → Reach s u
