-- ===== src/Tests/Codec.antt =====
-- A toy `bincode`: every value writes itself ahead of the rest, a list with its length first, and
-- is read back from the front.
use streamlet_transparency_l.Prelude.{
  ℕ, zero, suc, ◌≡◌, refl, ap, ◌∙◌, Bool, true, false, Option, none, some, List, [], ◌∷◌,
}
use streamlet_transparency_l.Prelude.Lists.{length}
use streamlet_transparency_l.Prelude.Bytes.{Bytes}
use streamlet_transparency_l.Blockchain.Block.{Block}
use streamlet_transparency_l.Message.{Message, MessageKind, MessagePayload, PeerAdvertisement}

pub record Format (A : Type 0) : Type 0 where
  pub write : A → Bytes → Bytes
  pub read : Bytes → Option (A × Bytes)
  pub same : (x : A) (rest : Bytes) → read (write x rest) ≡ some (x, rest)

abbrev over : {A B : Type 0} → (A → B) → Option (A × Bytes) → Option (B × Bytes)
over f none = none
over f (some (x, rest)) = some (f x, rest)

abbrev behind :
    {A B : Type 0} → Option (A × Bytes) → (A → Bytes → Option (B × Bytes)) → Option (B × Bytes)
behind none next = none
behind (some (x, rest)) next = next x rest

abbrev read_nat : Bytes → Option (ℕ × Bytes)
read_nat [] = none
read_nat (n ∷ rest) = some (n, rest)

abbrev nat : Format ℕ
nat = record { write = λ n rest. n ∷ rest; read = read_nat; same = λ n rest. refl }

abbrev convert :
    {A B : Type 0} (f : A → B) (g : B → A) → ((y : B) → f (g y) ≡ y) → Format A → Format B
convert f g back a = record {
  write = λ y rest. a.write (g y) rest;
  read = λ bytes. over f (a.read bytes);
  same = λ y rest. ap (over f) (a.same (g y) rest) ∙ ap (λ z. some (z, rest)) (back y);
}

abbrev pair : {A B : Type 0} → Format A → Format B → Format (A × B)
pair a b = record {
  write = λ p rest. a.write p.0 (b.write p.1 rest);
  read = λ bytes. behind (a.read bytes) (λ x rest. over (λ y. (x, y)) (b.read rest));
  same = λ p rest.
      ap (λ r. behind r (λ x rest. over (λ y. (x, y)) (b.read rest)))
        (a.same p.0 (b.write p.1 rest))
      ∙ ap (over (λ y. (p.0, y))) (b.same p.1 rest);
}

abbrev write_all : {A : Type 0} → Format A → List A → Bytes → Bytes
write_all a [] rest = rest
write_all a (x ∷ xs) rest = a.write x (write_all a xs rest)

abbrev read_all : {A : Type 0} → Format A → ℕ → Bytes → Option (List A × Bytes)
read_all a zero bytes = some ([], bytes)
read_all a (suc n) bytes = behind (a.read bytes) (λ x rest. over (λ xs. x ∷ xs) (read_all a n rest))

pub read_all-write_all :
    {A : Type 0} (a : Format A) (xs : List A) (rest : Bytes)
    → read_all a (length xs) (write_all a xs rest) ≡ some (xs, rest)
read_all-write_all a [] rest = refl
read_all-write_all a (x ∷ xs) rest =
    ap (λ r. behind r (λ x rest. over (λ xs. x ∷ xs) (read_all a (length xs) rest)))
      (a.same x (write_all a xs rest))
    ∙ ap (over (λ xs. x ∷ xs)) (read_all-write_all a xs rest)

abbrev list : {A : Type 0} → Format A → Format (List A)
list a = record {
  write = λ xs rest. length xs ∷ write_all a xs rest;
  read = λ bytes. behind (read_nat bytes) (read_all a);
  same = λ xs rest. read_all-write_all a xs rest;
}

abbrev bytes : Format Bytes
bytes = list nat

abbrev flag_of : ℕ → Bool
flag_of zero = false
flag_of (suc n) = true

abbrev of_flag : Bool → ℕ
of_flag false = 0
of_flag true = 1

pub flag_of-of_flag : (b : Bool) → flag_of (of_flag b) ≡ b
flag_of-of_flag true = refl
flag_of-of_flag false = refl

abbrev block : Format Block
block =
    convert
      (λ p. record {
        epoch = p.0;
        hash = p.1.0;
        parent_hash = p.1.1.0;
        payload = p.1.1.1.0;
        height = p.1.1.1.1.0;
        nonce = p.1.1.1.1.1;
      })
      (λ (b : Block). (b.epoch, (b.hash, (b.parent_hash, (b.payload, (b.height, b.nonce))))))
      (λ b. refl) (pair nat (pair bytes (pair bytes (pair bytes (pair nat nat)))))

abbrev advertisement : Format PeerAdvertisement
advertisement =
    convert
      (λ p. record {
        public_key = p.0;
        node_id = p.1.0;
        node_name = p.1.1.0;
        timestamp = p.1.1.1.0;
        end_init = p.1.1.1.1.0;
        known_peers = p.1.1.1.1.1;
      })
      (λ (m : PeerAdvertisement).
        (m.public_key, (m.node_id, (m.node_name, (m.timestamp, (m.end_init, m.known_peers))))))
      (λ m. refl)
      (pair bytes (
        pair nat (
          pair bytes (pair nat (pair (convert flag_of of_flag flag_of-of_flag nat) (list bytes))))))

abbrev write_payload : MessagePayload → Bytes → Bytes
write_payload MessagePayload.none rest = 0 ∷ rest
write_payload (MessagePayload.block b) rest = 1 ∷ block.write b rest
write_payload (MessagePayload.string s) rest = 2 ∷ bytes.write s rest
write_payload (MessagePayload.peer_advertisement m) rest = 3 ∷ advertisement.write m rest
write_payload (MessagePayload.app_data s) rest = 4 ∷ bytes.write s rest
write_payload (MessagePayload.socket_addr s) rest = 5 ∷ bytes.write s rest

abbrev read_payload : Bytes → Option (MessagePayload × Bytes)
read_payload [] = none
read_payload (zero ∷ rest) = some (MessagePayload.none, rest)
read_payload (suc zero ∷ rest) = over MessagePayload.block (block.read rest)
read_payload (suc (suc zero) ∷ rest) = over MessagePayload.string (bytes.read rest)
read_payload (suc (suc (suc zero)) ∷ rest) =
    over MessagePayload.peer_advertisement (advertisement.read rest)
read_payload (suc (suc (suc (suc zero))) ∷ rest) = over MessagePayload.app_data (bytes.read rest)
read_payload (suc (suc (suc (suc (suc n)))) ∷ rest) =
    over MessagePayload.socket_addr (bytes.read rest)

pub read_payload-write_payload :
    (p : MessagePayload) (rest : Bytes) → read_payload (write_payload p rest) ≡ some (p, rest)
read_payload-write_payload MessagePayload.none rest = refl
read_payload-write_payload (MessagePayload.block b) rest =
    ap (over MessagePayload.block) (block.same b rest)
read_payload-write_payload (MessagePayload.string s) rest =
    ap (over MessagePayload.string) (bytes.same s rest)
read_payload-write_payload (MessagePayload.peer_advertisement m) rest =
    ap (over MessagePayload.peer_advertisement) (advertisement.same m rest)
read_payload-write_payload (MessagePayload.app_data s) rest =
    ap (over MessagePayload.app_data) (bytes.same s rest)
read_payload-write_payload (MessagePayload.socket_addr s) rest =
    ap (over MessagePayload.socket_addr) (bytes.same s rest)

abbrev payload : Format MessagePayload
payload = record { write = write_payload; read = read_payload; same = read_payload-write_payload }

abbrev kinds : List MessageKind
kinds =
    MessageKind.vote ∷ MessageKind.propose ∷ MessageKind.test ∷ MessageKind.peer_init
    ∷ MessageKind.app_request ∷ MessageKind.app_send ∷ MessageKind.app_block_request
    ∷ MessageKind.app_block_response ∷ MessageKind.app_chain_request
    ∷ MessageKind.app_chain_response ∷ []

abbrev kind_at : List MessageKind → ℕ → MessageKind
kind_at [] n = MessageKind.test
kind_at (k ∷ ks) zero = k
kind_at (k ∷ ks) (suc n) = kind_at ks n

abbrev of_kind : MessageKind → ℕ
of_kind MessageKind.vote = 0
of_kind MessageKind.propose = 1
of_kind MessageKind.test = 2
of_kind MessageKind.peer_init = 3
of_kind MessageKind.app_request = 4
of_kind MessageKind.app_send = 5
of_kind MessageKind.app_block_request = 6
of_kind MessageKind.app_block_response = 7
of_kind MessageKind.app_chain_request = 8
of_kind MessageKind.app_chain_response = 9

pub kind_at-of_kind : (k : MessageKind) → kind_at kinds (of_kind k) ≡ k
kind_at-of_kind MessageKind.vote = refl
kind_at-of_kind MessageKind.propose = refl
kind_at-of_kind MessageKind.test = refl
kind_at-of_kind MessageKind.peer_init = refl
kind_at-of_kind MessageKind.app_request = refl
kind_at-of_kind MessageKind.app_send = refl
kind_at-of_kind MessageKind.app_block_request = refl
kind_at-of_kind MessageKind.app_block_response = refl
kind_at-of_kind MessageKind.app_chain_request = refl
kind_at-of_kind MessageKind.app_chain_response = refl

abbrev message : Format Message
message =
    convert
      (λ p. record {
        payload = p.0;
        kind = p.1.0;
        nonce = p.1.1.0;
        tag = p.1.1.1.0;
        sender_id = p.1.1.1.1.0;
        sender_name = p.1.1.1.1.1.0;
        signatures = p.1.1.1.1.1.1;
      })
      (λ (m : Message).
        (m.payload, (m.kind, (m.nonce, (m.tag, (m.sender_id, (m.sender_name, m.signatures)))))))
      (λ m. refl)
      (pair payload (
        pair (convert (kind_at kinds) of_kind kind_at-of_kind nat)
          (pair nat (pair nat (pair nat (pair bytes (list bytes)))))))

abbrev front : Option (Message × Bytes) → Option Message
front none = none
front (some (m, rest)) = some m

abbrev pub encode : Message → Bytes
encode m = message.write m []

abbrev pub decode : Bytes → Option Message
decode encoded = front (message.read encoded)

-- What the toy `bincode` writes it reads back.
pub decode-encode : (m : Message) → decode (encode m) ≡ some m
decode-encode m = ap front (message.same m [])
