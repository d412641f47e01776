-- ===== src/App/Directory/Laws.antt =====
-- What a random directory looks like, and that it can be told from what is printed.
use mathlib.Core.List.{append_assoc, append-nil, append_cancel_left}
use streamlet_transparency_l.Prelude.{
  ℕ, zero, suc, ◌+◌, ◌≤◌, ◌<◌, ◌≡◌, ◌≢◌, refl, sym, subst, ◌∙◌, List, [], ◌∷◌, ◌++◌, arith,
}
use streamlet_transparency_l.Prelude.Lists.{length, All, All-snoc, length-append}
use streamlet_transparency_l.Prelude.Bytes.{Bytes, bytes}
use streamlet_transparency_l.Prelude.Decimal.{decimal, decimal-digits}
use streamlet_transparency_l.Prelude.Sets.{All-mono}
use streamlet_transparency_l.Prelude.Text.{
  split_at_separator, split_at_length, All-append, append-seven,
}
use streamlet_transparency_l.App.Directory.{
  Random, OnionRouterBasicData, OnionRouterNetDirectory, key_size, remaining_data_hash_size,
  min_size, max_size, ipv4_text, sample, router_draws, new_router, push_routers, display_router,
  display_routers, display,
}
use streamlet_transparency_l.App.Directory

-- What the generator promises: a number of the range, which it does not exceed nor reach the end of.
pub record Ranged (random : Random) : Type 0 where
  pub low : (low high draw : ℕ) → low < high → low ≤ random.gen_range low high draw
  pub high : (low high draw : ℕ) → low < high → random.gen_range low high draw < high

-- A router as the application makes it: no octet is 255, and key and hash have their lengths.
pub record Sane (r : OnionRouterBasicData) : Type 0 where
  pub a : ℕ
  pub b : ℕ
  pub c : ℕ
  pub d : ℕ
  pub octets : (a < 255) × (b < 255) × (c < 255) × (d < 255)
  pub ip : r.ip ≡ ipv4_text a b c d
  pub key : length r.onion_key ≡ key_size
  pub hash : length r.full_hash ≡ remaining_data_hash_size

length-sample : (random : Random) (n draw : ℕ) → length (sample random n draw) ≡ n
unfolding sample
length-sample random zero draw = refl
length-sample random (suc n) draw = omega (arith, length-sample random n (draw + 1))

new_router-Sane : (random : Random) (draw : ℕ) → Ranged random → Sane (new_router random draw)
unfolding new_router
new_router-Sane random draw ranged = record {
  a = random.gen_range 0 255 draw;
  b = random.gen_range 0 255 (draw + 1);
  c = random.gen_range 0 255 (draw + 2);
  d = random.gen_range 0 255 (draw + 3);
  octets = (
    ranged.high 0 255 draw (omega arith),
    ranged.high 0 255 (draw + 1) (omega arith),
    ranged.high 0 255 (draw + 2) (omega arith),
    ranged.high 0 255 (draw + 3) (omega arith),
  );
  ip = refl;
  key = length-sample random key_size (draw + 4);
  hash = length-sample random remaining_data_hash_size (draw + 4 + key_size);
}

push_routers-Sane :
    (random : Random) (n draw : ℕ) (or_list : List OnionRouterBasicData)
    → Ranged random
    → All Sane or_list
    → (length (push_routers random n draw or_list) ≡ length or_list + n)
      × All Sane (push_routers random n draw or_list)
unfolding push_routers
push_routers-Sane random zero draw or_list ranged sane = (omega arith, sane)
push_routers-Sane random (suc n) draw or_list ranged sane =
    let (long, all) =
      push_routers-Sane random n (draw + router_draws) (or_list ++ new_router random draw ∷ [])
        ranged
        (All-snoc Sane or_list (new_router random draw) sane
          (new_router-Sane random draw ranged)) in
    (omega (arith, long, length-append or_list (new_router random draw ∷ [])), all)

-- Where the generator keeps to its ranges, a random directory has from 2 to 19 routers, each with
-- an address none of whose octets is 255, a key of 128 characters and a hash of 64.
pub new_bounds :
    (random : Random) (draw : ℕ)
    → Ranged random
    → (min_size ≤ length (Directory.new random draw).or_list)
      × (length (Directory.new random draw).or_list < max_size)
      × All Sane (Directory.new random draw).or_list
unfolding Directory.new
new_bounds random draw ranged =
    let n = random.gen_range min_size max_size draw in
    let (long, all) = push_routers-Sane random n (draw + 1) [] ranged tt in
    (
      omega (arith, long, ranged.low min_size max_size draw (omega arith)),
      omega (arith, long, ranged.high min_size max_size draw (omega arith)),
      all,
    )

ip_plain : (a b c d : ℕ) → All (λ x. x ≢ 44) (ipv4_text a b c d)
unfolding ipv4_text
ip_plain a b c d =
    let octet : (n : ℕ) → All (λ x. x ≢ 44) (decimal 3 n) = λ n.
      All-mono (λ x. 48 ≤ x) (λ x. x ≢ 44) (decimal 3 n) (λ x h e. omega arith)
        (decimal-digits 3 n) in
    let dot : All (λ x. x ≢ 44) (bytes ".") = ((λ e. omega arith), tt) in
    All-append (λ x. x ≢ 44) (decimal 3 a) _ (octet a)
      (All-append (λ x. x ≢ 44) (bytes ".") _ dot
        (All-append (λ x. x ≢ 44) (decimal 3 b) _ (octet b)
          (All-append (λ x. x ≢ 44) (bytes ".") _ dot
            (All-append (λ x. x ≢ 44) (decimal 3 c) _ (octet c)
              (All-append (λ x. x ≢ 44) (bytes ".") (decimal 3 d) dot (octet d))))))

-- A router's text with more behind it.
router_text :
    (r : OnionRouterBasicData) (more : Bytes)
    → display_router r ++ more
      ≡ bytes "* Router information:\nIP address (raw): "
        ++ (r.ip
            ++ (bytes ",\nOnion key (bytes): "
                ++ (r.onion_key
                    ++ (bytes ",\nHash of descriptor: "
                        ++ (r.full_hash ++ (bytes "\n---\n" ++ more))))))
unfolding display_router
router_text r more =
    append-seven (bytes "* Router information:\nIP address (raw): ") r.ip
      (bytes ",\nOnion key (bytes): ") r.onion_key (bytes ",\nHash of descriptor: ") r.full_hash
      (bytes "\n---\n") more

display_router-injective :
    (r s : OnionRouterBasicData) (more more' : Bytes)
    → Sane r
    → Sane s
    → display_router r ++ more ≡ display_router s ++ more'
    → (r ≡ s) × (more ≡ more')
display_router-injective r s more more' sr ss e =
    let shown = sym (router_text r more) ∙ e ∙ router_text s more' in
    let front = append_cancel_left (bytes "* Router information:\nIP address (raw): ") _ _ shown in
    let (ip, after_ip) =
      split_at_separator 44 r.ip s.ip _ _
        (subst (All (λ x. x ≢ 44)) (sym sr.ip) (ip_plain sr.a sr.b sr.c sr.d))
        (subst (All (λ x. x ≢ 44)) (sym ss.ip) (ip_plain ss.a ss.b ss.c ss.d)) front in
    let key_on = append_cancel_left (bytes "\nOnion key (bytes): ") _ _ after_ip in
    let (key, after_key) =
      split_at_length r.onion_key s.onion_key _ _ (sr.key ∙ sym ss.key) key_on in
    let hash_on = append_cancel_left (bytes ",\nHash of descriptor: ") _ _ after_key in
    let (hash, after_hash) =
      split_at_length r.full_hash s.full_hash _ _ (sr.hash ∙ sym ss.hash) hash_on in
    (
      λ i. record { ip = ip i; onion_key = key i; full_hash = hash i },
      append_cancel_left (bytes "\n---\n") more more' after_hash,
    )

abbrev text : List OnionRouterBasicData → Bytes
text [] = []
text (r ∷ rest) = display_router r ++ text rest

display_routers-text :
    (s : Bytes) (rs : List OnionRouterBasicData) → display_routers s rs ≡ s ++ text rs
unfolding display_routers
display_routers-text s [] = sym (append-nil s)
display_routers-text s (r ∷ rest) =
    display_routers-text (s ++ display_router r) rest
    ∙ append_assoc s (display_router r) (text rest)

display_router-ne-nil : (r : OnionRouterBasicData) (more : Bytes) → (display_router r ++ more) ≢ []
unfolding display_router
display_router-ne-nil r more e = cc

text-injective :
    (rs ss : List OnionRouterBasicData) → All Sane rs → All Sane ss → text rs ≡ text ss → rs ≡ ss
text-injective [] [] sr ss e = refl
text-injective [] (s ∷ ss) sr sane e = absurd (display_router-ne-nil s (text ss) (sym e))
text-injective (r ∷ rs) [] sane ss e = absurd (display_router-ne-nil r (text rs) e)
text-injective (r ∷ rs) (s ∷ ss) sr sane e =
    let (same, rest) = display_router-injective r s (text rs) (text ss) sr.0 sane.0 e in
    rw (same, text-injective rs ss sr.1 sane.1 rest) refl

-- Where the generator keeps to its ranges, two random directories that are printed alike are the
-- same: the text tells all of the directory.
pub display_tells_directory :
    (random : Random) (draw draw' : ℕ)
    → Ranged random
    → display (Directory.new random draw) ≡ display (Directory.new random draw')
    → Directory.new random draw ≡ Directory.new random draw'
unfolding display Directory.new
display_tells_directory random draw draw' ranged e =
    let rs = (Directory.new random draw).or_list in
    let ss = (Directory.new random draw').or_list in
    let same =
      text-injective rs ss (new_bounds random draw ranged).2 (new_bounds random draw' ranged).2
        (sym (display_routers-text [] rs) ∙ e ∙ display_routers-text [] ss) in
    λ i. record { or_list = same i }
