-- ===== src/Borshify/Pieces.antt =====
-- `Buffer.concat` of buffers whose making may throw: the first exception, or the bytes in order.
use rainbow_bridge_cli.Base.{List, [], ◌∷◌, ◌++◌}
use rainbow_bridge_cli.Base.Bytes.{Bytes}
use rainbow_bridge_cli.Base.Io.{Outcome, ok}
use rainbow_bridge_cli.Base.Sync.{◌>>=◌}

unfoldable pub concat : List (Outcome Bytes) → Outcome Bytes
concat [] = ok []
concat (p ∷ ps) = do b ← p; bs ← concat ps; ok (b ++ bs)

-- Buffer.concat(list.map(f))
unfoldable pub concat_map : {A : Type 0} → (A → Outcome Bytes) → List A → Outcome Bytes
concat_map f [] = ok []
concat_map f (x ∷ xs) = do b ← f x; bs ← concat_map f xs; ok (b ++ bs)
