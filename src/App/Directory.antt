-- ===== src/App/Directory.antt =====
-- cs244b_project/src/app/app.rs: the random directories of onion routers that the application
-- sends, and how they are printed. The random number generator is a parameter: what it gives at
-- its n-th draw. The number of draws so far is passed along.
pub mod Laws
use streamlet_transparency_l.Prelude.{ℕ, zero, suc, ◌+◌, List, [], ◌∷◌, ◌++◌}
use streamlet_transparency_l.Prelude.Bytes.{Bytes, bytes}
use streamlet_transparency_l.Prelude.Decimal.{decimal}

pub record Random : Type 0 where
  -- `gen_range(low, high)`, at this draw.
  pub gen_range : ℕ → ℕ → ℕ → ℕ
  -- A sample of `Alphanumeric`.
  pub alphanumeric : ℕ → ℕ

pub record OnionRouterBasicData : Type 0 where
  pub ip : Bytes
  pub onion_key : Bytes
  pub full_hash : Bytes

pub record OnionRouterNetDirectory : Type 0 where
  pub or_list : List OnionRouterBasicData

abbrev pub key_size : ℕ
key_size = 128

abbrev pub remaining_data_hash_size : ℕ
remaining_data_hash_size = 64

abbrev pub min_size : ℕ
min_size = 2

abbrev pub max_size : ℕ
max_size = 20

-- `Ipv4Addr::to_string`: an octet has three digits at most.
unfoldable pub ipv4_text : ℕ → ℕ → ℕ → ℕ → Bytes
ipv4_text a b c d =
    decimal 3 a
    ++ (bytes "." ++ (decimal 3 b ++ (bytes "." ++ (decimal 3 c ++ (bytes "." ++ decimal 3 d)))))

-- `sample_iter(&Alphanumeric).take(n)`, from this draw on.
unfoldable pub sample : Random → ℕ → ℕ → Bytes
sample random zero draw = []
sample random (suc n) draw = random.alphanumeric draw ∷ sample random n (draw + 1)

-- The draws of one router: four octets, the key and the hash.
abbrev pub router_draws : ℕ
router_draws = 4 + key_size + remaining_data_hash_size

-- `OnionRouterBasicData::new`
unfoldable pub new_router : Random → ℕ → OnionRouterBasicData
unfolding ipv4_text
new_router random draw = record {
  ip =
      ipv4_text (random.gen_range 0 255 draw) (random.gen_range 0 255 (draw + 1))
        (random.gen_range 0 255 (draw + 2)) (random.gen_range 0 255 (draw + 3));
  onion_key = sample random key_size (draw + 4);
  full_hash = sample random remaining_data_hash_size (draw + 4 + key_size);
}

-- The loop of `OnionRouterNetDirectory::new`, with the routers so far.
unfoldable pub push_routers : Random → ℕ → ℕ → List OnionRouterBasicData → List OnionRouterBasicData
push_routers random zero draw or_list = or_list
push_routers random (suc n) draw or_list =
    push_routers random n (draw + router_draws) (or_list ++ new_router random draw ∷ [])

-- `OnionRouterNetDirectory::new`
unfoldable pub new : Random → ℕ → OnionRouterNetDirectory
unfolding push_routers
new random draw = record {
  or_list = push_routers random (random.gen_range min_size max_size draw) (draw + 1) [];
}

-- `Display` of a router.
unfoldable pub display_router : OnionRouterBasicData → Bytes
display_router r =
    bytes "* Router information:\nIP address (raw): "
    ++ (r.ip
        ++ (bytes ",\nOnion key (bytes): "
            ++ (r.onion_key
                ++ (bytes ",\nHash of descriptor: " ++ (r.full_hash ++ bytes "\n---\n")))))

-- The loop of `Display` of a directory, with the text so far.
unfoldable pub display_routers : Bytes → List OnionRouterBasicData → Bytes
display_routers s [] = s
display_routers s (r ∷ rest) = display_routers (s ++ display_router r) rest

-- `Display` of a directory.
unfoldable pub display : OnionRouterNetDirectory → Bytes
unfolding display_routers
display directory = display_routers [] directory.or_list
