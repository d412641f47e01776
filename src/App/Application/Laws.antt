-- ===== src/App/Application/Laws.antt =====
-- An answer is taken once.
use streamlet_transparency_l.Prelude.{ℕ, ◌≡◌, refl, sym, ap, ◌∙◌, true, false, List, [], ◌∷◌, arith}
use streamlet_transparency_l.Prelude.Tests.{if_true, if_false}
use streamlet_transparency_l.Prelude.Outcome.{done, >>=-eq-done, done-injective}
use streamlet_transparency_l.Message.{Message, MessageKind, MessagePayload}
use streamlet_transparency_l.App.Application.{
  Application, Tcp, has_tag, remove_tag, handle_message, handle_response, request_block,
  request_chain, close_request,
}

-- A response of the kinds that the application knows, with an address to fetch from.
abbrev pub IsAnswer : MessageKind → MessagePayload → Type 0
IsAnswer MessageKind.app_block_response (MessagePayload.socket_addr addr) = Unit
IsAnswer MessageKind.app_chain_response (MessagePayload.socket_addr addr) = Unit
IsAnswer _ _ = ⊥

pub has_tag-remove_tag : (tag : ℕ) (tags : List ℕ) → has_tag (remove_tag tag tags) tag ≡ false
unfolding has_tag remove_tag
has_tag-remove_tag tag [] = refl
has_tag-remove_tag tag (t ∷ tags) = ground (arith, has_tag-remove_tag tag tags)

handle_response_closes :
    (tcp : Tcp) (app : Application) (kind : MessageKind) (payload : MessagePayload) (tag : ℕ)
    {app' : Application}
    → IsAnswer kind payload
    → handle_response tcp app kind payload tag ≡ done app'
    → has_tag app'.outstanding_requests tag ≡ false
unfolding handle_response close_request
handle_response_closes tcp app MessageKind.app_block_response (MessagePayload.socket_addr addr) tag
      a h =
    let (fetched, e, f) = >>=-eq-done (request_block tcp app addr) _ h in
    ap (λ (r : Application). has_tag r.outstanding_requests tag) (sym (done-injective f))
    ∙ has_tag-remove_tag tag fetched.outstanding_requests
handle_response_closes tcp app MessageKind.app_chain_response (MessagePayload.socket_addr addr) tag
      a h =
    let (fetched, e, f) = >>=-eq-done (request_chain tcp app addr) _ h in
    ap (λ (r : Application). has_tag r.outstanding_requests tag) (sym (done-injective f))
    ∙ has_tag-remove_tag tag fetched.outstanding_requests
handle_response_closes tcp app kind payload tag a h = elim a [ ]

-- Once an answer to an outstanding request, a block or chain response with an address, has been
-- handled, its tag is no longer outstanding, and every further message under that tag is ignored.
pub answered_once :
    (tcp : Tcp) (app app' : Application) (first again : Message)
    → has_tag app.outstanding_requests first.tag ≡ true
    → IsAnswer first.kind first.payload
    → handle_message tcp app first ≡ done app'
    → again.tag ≡ first.tag
    → (has_tag app'.outstanding_requests first.tag ≡ false)
      × (handle_message tcp app' again ≡ done app')
unfolding handle_message
answered_once tcp app app' first again asked answer h same =
    let handled : handle_response tcp app first.kind first.payload first.tag ≡ done app' =
      sym (if_true (has_tag app.outstanding_requests first.tag) _ _ asked) ∙ h in
    let closed = handle_response_closes tcp app first.kind first.payload first.tag answer handled in
    (
      closed,
      if_false (has_tag app'.outstanding_requests again.tag) _ _
          (ap (has_tag app'.outstanding_requests) same ∙ closed),
    )
