-- ===== src/Program/Flags.antt =====
-- What the configuration says of the flags.
use raft_example.Prelude.{
  ℕ, ◌≡◌, ◌≢◌, refl, sym, ap, ◌∙◌, subst, Bool, true, false, List, [], ◌∷◌, ◌++◌, Bytes, ok,
  if◌then◌else◌, ◌==◌, ==_iff, not, All, arith, ◌↔◌,
}
use raft_example.Gossip.Address.{has}
use raft_example.Assembly.{EngineConfig}
use raft_example.Program.{
  CommandLine, comma, put_on, split, is_empty, seeds_of, engine_config, config_of_flags,
}

-- The parts with the byte between them.
abbrev pub join_by : ℕ → List Bytes → Bytes
join_by c [] = []
join_by c (part ∷ []) = part
join_by c (part ∷ next ∷ parts) = part ++ c ∷ join_by c (next ∷ parts)

join-put_on : (c x : ℕ) (parts : List Bytes) → join_by c (put_on x parts) ≡ x ∷ join_by c parts
unfolding put_on
join-put_on c x [] = refl
join-put_on c x (part ∷ []) = refl
join-put_on c x (part ∷ next ∷ parts) = refl

put_on-nonempty : (x : ℕ) (parts : List Bytes) → put_on x parts ≢ []
unfolding put_on
put_on-nonempty x [] e = cc
put_on-nonempty x (part ∷ parts) e = cc

join-empty :
    (c : ℕ) (parts : List Bytes) → parts ≢ [] → join_by c ([] ∷ parts) ≡ c ∷ join_by c parts
join-empty c [] h = absurd (h refl)
join-empty c (part ∷ parts) h = refl

put_on-without :
    (c x : ℕ) (parts : List Bytes)
    → (x == c) ≡ false
    → All (λ part. has c part ≡ false) parts
    → All (λ part. has c part ≡ false) (put_on x parts)
unfolding put_on has
put_on-without c x [] other h = (rw other refl, tt)
put_on-without c x (part ∷ parts) other (h, rest) = (rw (other, h) refl, rest)

-- Split at a byte, and the parts of it.
record IsSplit (c : ℕ) (xs : Bytes) (parts : List Bytes) : Type 0 where
  nonempty : parts ≢ []
  joined : join_by c parts ≡ xs
  without : All (λ part. has c part ≡ false) parts

split-IsSplit : (c : ℕ) (xs : Bytes) → IsSplit c xs (split c xs)
unfolding split has
split-IsSplit c [] = record { nonempty = λ e. cc; joined = refl; without = (refl, tt) }
split-IsSplit c (x ∷ xs) = by_byte (x == c) refl (split-IsSplit c xs)
  where
    by_byte :
        (b : Bool)
        → (x == c) ≡ b
        → IsSplit c xs (split c xs)
        → IsSplit c (x ∷ xs) (if b then [] ∷ split c xs else put_on x (split c xs))
    by_byte true e h = record {
      nonempty = λ e'. cc;
      joined =
          join-empty c (split c xs) h.nonempty
          ∙ ap (λ ys. c ∷ ys) h.joined
          ∙ ap (λ y. y ∷ xs) (sym ((==_iff x c).0 e));
      without = (refl, h.without);
    }
    by_byte false e h = record {
      nonempty = put_on-nonempty x (split c xs);
      joined = join-put_on c x (split c xs) ∙ ap (λ ys. x ∷ ys) h.joined;
      without = put_on-without c x (split c xs) e h.without;
    }

empty_iff : (xs : Bytes) → (is_empty xs ≡ true) ↔ (xs ≡ [])
unfolding is_empty
empty_iff [] = (λ e. refl, λ e. refl)
empty_iff (x ∷ xs) = (λ e. cc, λ e. cc)

nonempty_of : (xs : Bytes) → is_empty xs ≡ false → xs ≢ []
nonempty_of xs h e = ground (arith, empty_iff xs, h, e)

-- The three flags that must be there, and the configuration.
config_lem :
    (f : CommandLine) (cfg : EngineConfig)
    → config_of_flags f ≡ ok cfg
    → (is_empty f.raft_id ≡ false)
      × (is_empty f.raft_addr ≡ false)
      × (is_empty f.grpc_addr ≡ false)
      × (engine_config f ≡ cfg)
unfolding config_of_flags
config_lem f cfg h = ground arith

seeds_lem :
    (f : CommandLine)
    → (join_by comma (seeds_of f) ≡ (if is_empty f.gossip_addr then [] else f.gossip_seeds))
      × All (λ seed. has comma seed ≡ false) (seeds_of f)
unfolding seeds_of
seeds_lem f = by_flags (is_empty f.gossip_addr) f.gossip_seeds
  where
    by_flags :
        (off : Bool) (seeds : Bytes)
        → (join_by comma (if off then [] else if is_empty seeds then [] else split comma seeds)
            ≡ (if off then [] else seeds))
          × All
              (λ seed. has comma seed ≡ false)
              (if off then [] else if is_empty seeds then [] else split comma seeds)
    by_flags true seeds = (refl, tt)
    by_flags false [] = (refl, tt)
    by_flags false (c ∷ cs) =
        ((split-IsSplit comma (c ∷ cs)).joined, (split-IsSplit comma (c ∷ cs)).without)

enabled_iff : (xs : Bytes) → (not (is_empty xs) ≡ true) ↔ (xs ≢ [])
unfolding is_empty
enabled_iff [] = (λ e. cc, λ h. absurd (h refl))
enabled_iff (x ∷ xs) = (λ e e'. cc, λ h. refl)

-- When main gets as far as the engine, the node id and the two addresses of the configuration are
-- not empty, gossip is on exactly when its address is not empty, the seeds spell the flag of the
-- seeds with a comma between them if gossip is on and are none otherwise, and no seed has a comma
-- in it.
pub config_of_flags-ok :
    (f : CommandLine) (cfg : EngineConfig)
    → config_of_flags f ≡ ok cfg
    → (cfg.node_id ≢ [])
      × (cfg.raft_addr ≢ [])
      × (cfg.grpc_addr ≢ [])
      × ((cfg.gossip_enabled ≡ true) ↔ (cfg.gossip_addr ≢ []))
      × (join_by comma cfg.gossip_seeds ≡ (if cfg.gossip_enabled then f.gossip_seeds else []))
      × All (λ seed. has comma seed ≡ false) cfg.gossip_seeds
unfolding engine_config
config_of_flags-ok f cfg h =
    let (id, raft, grpc, same_config) = config_lem f cfg h in
    let (joined, without) = seeds_lem f in
    subst
      (λ (x : EngineConfig).
        (x.node_id ≢ [])
        × (x.raft_addr ≢ [])
        × (x.grpc_addr ≢ [])
        × ((x.gossip_enabled ≡ true) ↔ (x.gossip_addr ≢ []))
        × (join_by comma x.gossip_seeds ≡ (if x.gossip_enabled then f.gossip_seeds else []))
        × All (λ seed. has comma seed ≡ false) x.gossip_seeds)
      same_config
      (
        nonempty_of f.raft_id id,
        nonempty_of f.raft_addr raft,
        nonempty_of f.grpc_addr grpc,
        enabled_iff f.gossip_addr,
        joined ∙ flipped (is_empty f.gossip_addr),
        without,
      )
  where
    flipped :
        (b : Bool) → (if b then [] else f.gossip_seeds) ≡ (if not b then f.gossip_seeds else [])
    flipped true = refl
    flipped false = refl
