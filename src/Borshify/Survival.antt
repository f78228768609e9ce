-- ===== src/Borshify/Survival.antt =====
-- Where bs58 and bn.js return or throw, so do the serializers of utils/borsh.js.
use rainbow_bridge_cli.Base.{ℕ, String, Option, none, some, List, [], ◌∷◌, ◌++◌, length, All}
use rainbow_bridge_cli.Base.Bytes.{Bytes}
use rainbow_bridge_cli.Base.Io.{Outcome, ok, err, exit, hangs, out_of_fuel}
use rainbow_bridge_cli.Base.Io.Survival.{IsAlive}
use rainbow_bridge_cli.Base.Sync.{◌>>=◌}
use rainbow_bridge_cli.Borshify.Pieces.{concat, concat_map}
use rainbow_bridge_cli.Borshify.{
  Codec, InnerLite, BlockProducer, LightClientBlock, borshify_inner_lite, borshify_producer,
  borshify_approval, borshify_next_bps, borshify, nanoseconds,
}

-- bs58.decode and toBuffer return or throw.
pub record Answers (c : Codec) : Type 0 where
  pub decode58 : (s : String) → IsAlive (c.decode58 s)
  pub to_buffer : (n w : ℕ) → IsAlive (c.to_buffer n w)

append-IsAlive :
    (o p : Outcome Bytes) → IsAlive o → IsAlive p → IsAlive (do b ← o; bs ← p; ok (b ++ bs))
append-IsAlive (ok b) (ok bs) h k = tt
append-IsAlive (ok b) (err e) h k = tt
append-IsAlive (ok b) (exit n) h k = k
append-IsAlive (ok b) hangs h k = tt
append-IsAlive (ok b) out_of_fuel h k = k
append-IsAlive (err e) p h k = tt
append-IsAlive (exit n) p h k = h
append-IsAlive hangs p h k = tt
append-IsAlive out_of_fuel p h k = h

concat-IsAlive : (os : List (Outcome Bytes)) → All IsAlive os → IsAlive (concat os)
unfolding concat
concat-IsAlive [] h = tt
concat-IsAlive (o ∷ os) (h, hs) = append-IsAlive o (concat os) h (concat-IsAlive os hs)

concat_map-IsAlive :
    {A : Type 0} (f : A → Outcome Bytes) (xs : List A)
    → ((x : A) → IsAlive (f x))
    → IsAlive (concat_map f xs)
unfolding concat_map
concat_map-IsAlive f [] h = tt
concat_map-IsAlive f (x ∷ xs) h =
    append-IsAlive (f x) (concat_map f xs) (h x) (concat_map-IsAlive f xs h)

module _ (c : Codec) (a : Answers c) where
  inner_lite-IsAlive : (b : InnerLite) → IsAlive (borshify_inner_lite c b)
  unfolding borshify_inner_lite
  inner_lite-IsAlive b = concat-IsAlive _ (
    a.to_buffer b.height 8,
    (
      a.decode58 b.epoch_id,
      (
        a.decode58 b.next_epoch_id,
        (
          a.decode58 b.prev_state_root,
          (
            a.decode58 b.outcome_root,
            (
              a.to_buffer (nanoseconds b) 8,
              (a.decode58 b.next_bp_hash, (a.decode58 b.block_merkle_root, tt)),
            ),
          ),
        ),
      ),
    ),
  )

  producer-IsAlive : (p : BlockProducer) → IsAlive (borshify_producer c p)
  unfolding borshify_producer
  producer-IsAlive p = concat-IsAlive _ (
    a.to_buffer (c.js_length p.account_id) 4,
    (tt, (tt, (a.decode58 (c.substr_8 p.public_key), (a.to_buffer p.stake 16, tt)))),
  )

  approval-IsAlive : (s : Option String) → IsAlive (borshify_approval c s)
  unfolding borshify_approval
  approval-IsAlive none = tt
  approval-IsAlive (some s) = concat-IsAlive _ (tt, (tt, (a.decode58 (c.substr_8 s), tt)))

  next_bps-IsAlive : (ps : Option (List BlockProducer)) → IsAlive (borshify_next_bps c ps)
  unfolding borshify_next_bps
  next_bps-IsAlive none = tt
  next_bps-IsAlive (some ps) = concat-IsAlive _ (
    a.to_buffer (length ps) 4,
    (concat_map-IsAlive (borshify_producer c) ps producer-IsAlive, tt),
  )

  pub borshify-IsAlive : (b : LightClientBlock) → IsAlive (borshify c b)
  unfolding borshify
  borshify-IsAlive b = concat-IsAlive _ (
    a.decode58 b.prev_block_hash,
    (
      a.decode58 b.next_block_inner_hash,
      (
        inner_lite-IsAlive b.inner_lite,
        (
          a.decode58 b.inner_rest_hash,
          (
            tt,
            (
              next_bps-IsAlive b.next_bps,
              (
                a.to_buffer (length b.approvals_after_next) 4,
                (
                  concat_map-IsAlive (borshify_approval c) b.approvals_after_next approval-IsAlive,
                  tt,
                ),
              ),
            ),
          ),
        ),
      ),
    ),
  )
