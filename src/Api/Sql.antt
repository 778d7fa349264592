-- ===== src/Api/Sql.antt =====
-- The statements that the programs of examples/ send, and the text that stands for each.
use cybou_db.Prelude.{
  ℕ, ◌<◌, ◌≤◌, List, [], ◌++◌, arith, length, length-append, codes, decimal, length-decimal,
}

-- One constructor for each literal statement and for each format string, with its arguments.
pub data Sql : Type 0 where
  begin commit rollback : Sql
  create_results create_notes create_inbox create_audit create_reporting : Sql
  enqueue : List ℕ → Sql
  dequeue : Sql
  insert_result : ℕ → List ℕ → Sql
  append_done : List ℕ → Sql
  read_audit : Sql
  claim : ℕ → Sql
  insert_note : List ℕ → Sql
  ack nack : ℕ → ℕ → Sql
  renew : ℕ → ℕ → ℕ → Sql

-- The format strings with their arguments put in. A `%s` has been cut at its first zero byte.
unfoldable pub text : Sql → List ℕ
text begin = codes "BEGIN"
text commit = codes "COMMIT"
text rollback = codes "ROLLBACK"
text create_results = codes "CREATE TABLE results (size INT64, note TEXT)"
text create_notes = codes "CREATE TABLE results (note TEXT)"
text create_inbox = codes "CREATE QUEUE inbox"
text create_audit = codes "CREATE STREAM audit"
text create_reporting = codes "CREATE CURSOR reporting ON audit"
text (enqueue m) = codes "ENQUEUE INTO inbox VALUES ('" ++ (m ++ codes "')")
text dequeue = codes "DEQUEUE FROM inbox"
text (insert_result len s) =
    codes "INSERT INTO results VALUES (" ++ (decimal len ++ (codes ", '" ++ (s ++ codes "')")))
text (append_done s) = codes "APPEND TO audit VALUES ('done: " ++ (s ++ codes "')")
text read_audit = codes "READ FROM audit AS reporting"
text (claim ms) = codes "CLAIM FROM inbox FOR " ++ decimal ms
text (insert_note s) = codes "INSERT INTO results VALUES ('" ++ (s ++ codes "')")
text (ack pos token) =
    codes "ACK FROM inbox AT " ++ (decimal pos ++ (codes " TOKEN " ++ decimal token))
text (nack pos token) =
    codes "NACK FROM inbox AT " ++ (decimal pos ++ (codes " TOKEN " ++ decimal token))
text (renew pos token ms) =
    codes "RENEW FROM inbox AT "
    ++ (decimal pos ++ (codes " TOKEN " ++ (decimal token ++ (codes " FOR " ++ decimal ms))))

-- The argument of a statement that comes from a message.
unfoldable pub message_of : Sql → List ℕ
message_of (insert_result len s) = s
message_of (append_done s) = s
message_of (insert_note s) = s
message_of (enqueue s) = s
message_of _ = []

-- `char sql[512]`: a statement over a message of 255 bytes is never cut by `snprintf`.
length-text : (q : Sql) → length (message_of q) ≤ 255 → length (text q) < 512
unfolding text message_of
length-text begin h = omega arith
length-text commit h = omega arith
length-text rollback h = omega arith
length-text create_results h = omega arith
length-text create_notes h = omega arith
length-text create_inbox h = omega arith
length-text create_audit h = omega arith
length-text create_reporting h = omega arith
length-text (enqueue m) h = omega (arith, length-append {0})
length-text dequeue h = omega arith
length-text (insert_result len s) h = omega (arith, length-append {0}, length-decimal len)
length-text (append_done s) h = omega (arith, length-append {0})
length-text read_audit h = omega arith
length-text (claim ms) h = omega (arith, length-append {0}, length-decimal ms)
length-text (insert_note s) h = omega (arith, length-append {0})
length-text (ack pos token) h =
    omega (arith, length-append {0}, length-decimal pos, length-decimal token)
length-text (nack pos token) h =
    omega (arith, length-append {0}, length-decimal pos, length-decimal token)
length-text (renew pos token ms) h =
    omega (arith, length-append {0}, length-decimal pos, length-decimal token, length-decimal ms)
