-- ===== src/App/Application/Session.antt =====
-- A whole session of the application: the events of its loop, one after the other.
use mathlib.Core.List.{append_assoc, append-nil}
use streamlet_transparency_l.Prelude.{
  ℕ, suc, ◌+◌, ◌≡◌, refl, sym, ap, subst, ◌∙◌, inl, inr, List, [], ◌∷◌, ◌++◌, arith,
}
use streamlet_transparency_l.Prelude.Tests.{Bool-cases}
use streamlet_transparency_l.Prelude.Lists.{length}
use streamlet_transparency_l.Prelude.Outcome.{Outcome, done, ◌>>=◌, >>=-eq-done, done-injective}
use streamlet_transparency_l.Prelude.Bytes.{Bytes, bytes, starts_with}
use streamlet_transparency_l.Crypto.{Crypto}
use streamlet_transparency_l.Message.{
  Message, MessageKind, MessagePayload, Codec, serialize, deserialize,
}
use streamlet_transparency_l.Message
use streamlet_transparency_l.Network.{Gossip, NetworkStack, Publication, publish, broadcast_message}
use streamlet_transparency_l.App.Application.{
  Application, Tcp, insert_tag, make_message, make_data, make_latest_block_request,
  make_latest_chain_request, send, send_request, handle_user_input, take_block, request_block,
  take_chain, request_chain, close_request, handle_response, handle_message,
}
use streamlet_transparency_l.App.Application

-- `AppEventType`: a line of the user, with the data and the tag that handling it draws, or bytes
-- from the network.
pub data AppEventType : Type 0 where
  user_input : Bytes → Bytes → ℕ → AppEventType
  network_input : Bytes → AppEventType

module _ (c : Crypto) (codec : Codec) (gossip : Gossip) (tcp : Tcp) where
  unfoldable pub handle_event : Application → AppEventType → Outcome Application
  handle_event app (AppEventType.user_input line payload tag) =
      handle_user_input c codec gossip app line payload tag
  handle_event app (AppEventType.network_input input) =
      Application.handle_network_input codec tcp app input

  -- `run`, as long as events come.
  unfoldable pub run_events : Application → List AppEventType → Outcome Application
  unfolding handle_event
  run_events app [] = done app
  run_events app (event ∷ rest) = handle_event app event >>= λ app'. run_events app' rest

abbrev pub user_inputs : List AppEventType → ℕ
user_inputs [] = 0
user_inputs (AppEventType.user_input line payload tag ∷ rest) = suc (user_inputs rest)
user_inputs (AppEventType.network_input input ∷ rest) = user_inputs rest

-- The messages have this nonce and those that follow.
abbrev pub NoncesFrom : ℕ → List Message → Type 0
NoncesFrom n [] = Unit {0}
NoncesFrom n (m ∷ ms) = (m.nonce ≡ n) × NoncesFrom (n + 1) ms

-- The messages as they are published on a topic.
abbrev pub sent_on : Codec → Bytes → List Message → List Publication
sent_on codec topic [] = []
sent_on codec topic (m ∷ ms) =
    record { topic = topic; message = serialize codec m } ∷ sent_on codec topic ms

-- The application has sent these messages, under its next nonces.
pub record Sent (codec : Codec) (app app' : Application) (messages : List Message) : Type 0 where
  pub topic : app'.net_stack.topic ≡ app.net_stack.topic
  pub published :
      app'.net_stack.published
      ≡ app.net_stack.published ++ sent_on codec app.net_stack.topic messages
  pub nonces : NoncesFrom (app.curr_nonce + 1) messages
  pub count : app'.curr_nonce ≡ app.curr_nonce + length messages

module _ (c : Crypto) (codec : Codec) (gossip : Gossip) (tcp : Tcp) where
  send_lem :
      (app : Application) (m : Message) {app' : Application}
      → send codec gossip app m ≡ done app'
      → app' ≡ record app {
        net_stack =
            publish app.net_stack
              (record { topic = app.net_stack.topic; message = serialize codec m });
      }
  unfolding send broadcast_message
  send_lem app m h = ground arith

  -- A message under the next nonce.
  make_message_lem :
      (app : Application) (payload : MessagePayload) (kind : MessageKind) (tag : ℕ)
      {app1 : Application} {m : Message}
      → make_message app payload kind tag ≡ done (app1, m)
      → (app1.net_stack ≡ app.net_stack)
        × (app1.curr_nonce ≡ app.curr_nonce + 1)
        × (m.nonce ≡ app.curr_nonce + 1)
  unfolding make_message Message.new_with_defined_nonce
  make_message_lem app payload kind tag h = ground arith

  made_sends :
      (app app1 : Application) (m : Message) {app' : Application}
      → (app1.net_stack ≡ app.net_stack)
        × (app1.curr_nonce ≡ app.curr_nonce + 1)
        × (m.nonce ≡ app.curr_nonce + 1)
      → send codec gossip app1 m ≡ done app'
      → Sent codec app app' (m ∷ [])
  unfolding publish
  made_sends app app1 m (net, next, nonce) h =
      let e = send_lem app1 m h in
      record {
        topic =
            ap (λ (a : Application). a.net_stack.topic) e ∙ ap (λ (n : NetworkStack). n.topic) net;
        published =
            ap (λ (a : Application). a.net_stack.published) e
            ∙ ap
                (λ (n : NetworkStack).
                  n.published ++ record { topic = n.topic; message = serialize codec m } ∷ [])
                net;
        nonces = (nonce, tt);
        count = ap (λ (a : Application). a.curr_nonce) e ∙ next;
      }

  request_sends :
      (app : Application) (kind : MessageKind) (tag : ℕ) {app' : Application}
      → (make_message app MessagePayload.none kind tag >>= send_request codec gossip) ≡ done app'
      → (m : Message) × Sent codec app app' (m ∷ [])
  unfolding send_request
  request_sends app kind tag h =
      let ((app1, m), made, sends) = >>=-eq-done _ _ h in
      (
        m,
        made_sends app
            (record app1 { outstanding_requests = insert_tag m.tag app1.outstanding_requests }) m
            (make_message_lem app MessagePayload.none kind tag made) sends,
      )

  make_data_lem :
      (app : Application) (payload : Bytes) (tag : ℕ) {app1 : Application} {m : Message}
      → make_data c app payload tag ≡ done (app1, m)
      → (app1.net_stack ≡ app.net_stack)
        × (app1.curr_nonce ≡ app.curr_nonce + 1)
        × (m.nonce ≡ app.curr_nonce + 1)
  unfolding make_data make_message Message.new_with_defined_nonce Message.sign_message
  make_data_lem app payload tag h = ground arith

  data_sends :
      (app : Application) (payload : Bytes) (tag : ℕ) {app' : Application}
      → (make_data c app payload tag >>= λ made. send codec gossip made.0 made.1) ≡ done app'
      → (m : Message) × Sent codec app app' (m ∷ [])
  data_sends app payload tag h =
      let ((app1, m), made, sends) = >>=-eq-done _ _ h in
      (m, made_sends app app1 m (make_data_lem app payload tag made) sends)

  -- A line of the user sends one message.
  handle_user_input_sends :
      (app : Application) (line payload : Bytes) (tag : ℕ) {app' : Application}
      → handle_user_input c codec gossip app line payload tag ≡ done app'
      → (m : Message) × Sent codec app app' (m ∷ [])
  unfolding handle_user_input make_latest_block_request make_latest_chain_request
  handle_user_input_sends app line payload tag h =
      elim (Bool-cases (starts_with line (bytes "request block"))) [
        | inl asks ↦ request_sends app MessageKind.app_block_request tag (rw asks at h)
        | inr other ↦ elim (Bool-cases (starts_with line (bytes "request chain"))) [
          | inl asks ↦ request_sends app MessageKind.app_chain_request tag (rw (other, asks) at h)
          | inr plain ↦ data_sends app payload tag (rw (other, plain) at h)
        ]
      ]

  handle_network_input_sends :
      (app : Application) (input : Bytes) {app' : Application}
      → Application.handle_network_input codec tcp app input ≡ done app'
      → (app'.net_stack ≡ app.net_stack) × (app'.curr_nonce ≡ app.curr_nonce)
  unfolding Application.handle_network_input handle_message handle_response request_block take_block
      request_chain take_chain close_request deserialize
  handle_network_input_sends app input h = ground arith

  -- One message, and then those that follow.
  Sent-cons :
      (app app1 app' : Application) (m : Message) (ms : List Message)
      → Sent codec app app1 (m ∷ [])
      → Sent codec app1 app' ms
      → Sent codec app app' (m ∷ ms)
  Sent-cons app app1 app' m ms first rest = record {
    topic = rest.topic ∙ first.topic;
    published =
        rest.published
        ∙ ap (λ l. l ++ sent_on codec app1.net_stack.topic ms) first.published
        ∙ ap
            (λ t.
              (app.net_stack.published ++ sent_on codec app.net_stack.topic (m ∷ []))
              ++ sent_on codec t ms)
            first.topic
        ∙ append_assoc app.net_stack.published (sent_on codec app.net_stack.topic (m ∷ []))
            (sent_on codec app.net_stack.topic ms);
    nonces =
        (first.nonces.0, subst (λ n. NoncesFrom n ms) (ap (λ n. n + 1) first.count) rest.nonces);
    count = omega (arith, first.count, rest.count);
  }

  -- Nothing sent, and then those that follow.
  Sent-quiet :
      (app app1 app' : Application) (ms : List Message)
      → (app1.net_stack ≡ app.net_stack) × (app1.curr_nonce ≡ app.curr_nonce)
      → Sent codec app1 app' ms
      → Sent codec app app' ms
  Sent-quiet app app1 app' ms (net, nonce) rest = record {
    topic = rest.topic ∙ ap (λ (n : NetworkStack). n.topic) net;
    published =
        rest.published ∙ ap (λ (n : NetworkStack). n.published ++ sent_on codec n.topic ms) net;
    nonces = subst (λ n. NoncesFrom (n + 1) ms) nonce rest.nonces;
    count = rest.count ∙ ap (λ n. n + length ms) nonce;
  }

-- However the user's lines and the network's messages follow one another, an application that
-- does not panic has sent one message for every line, in order, under the nonces that follow the
-- one it had at first, so that no nonce is used twice; and it has sent nothing else.
pub run_events-Sent :
    (c : Crypto) (codec : Codec) (gossip : Gossip) (tcp : Tcp) (app : Application)
    (events : List AppEventType) (app' : Application)
    → run_events c codec gossip tcp app events ≡ done app'
    → (messages : List Message) × Sent codec app app' messages
      × (length messages ≡ user_inputs events)
unfolding run_events handle_event
run_events-Sent c codec gossip tcp app [] app' h = (
  [],
  subst (λ a. Sent codec app a []) (done-injective h)
      (record {
        topic = refl;
        published = sym (append-nil app.net_stack.published);
        nonces = tt;
        count = omega arith;
      }),
  refl,
)
run_events-Sent c codec gossip tcp app (AppEventType.user_input line payload tag ∷ rest) app' h =
    let (app1, first, others) = >>=-eq-done _ _ h in
    let (m, sent) = handle_user_input_sends c codec gossip tcp app line payload tag first in
    let (ms, more, count) = run_events-Sent c codec gossip tcp app1 rest app' others in
    (m ∷ ms, Sent-cons c codec gossip tcp app app1 app' m ms sent more, omega (arith, count))
run_events-Sent c codec gossip tcp app (AppEventType.network_input input ∷ rest) app' h =
    let (app1, first, others) = >>=-eq-done _ _ h in
    let (ms, more, count) = run_events-Sent c codec gossip tcp app1 rest app' others in
    (
      ms,
      Sent-quiet c codec gossip tcp app app1 app' ms
          (handle_network_input_sends c codec gossip tcp app input first) more,
      count,
    )
