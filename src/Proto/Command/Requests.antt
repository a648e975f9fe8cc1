-- ===== src/Proto/Command/Requests.antt =====
-- The messages of commands, and that Command::parse reads them: crates/proto/src/command.rs.
use kv.Prelude.{
  ℕ, ◌*◌, ◌%◌, ◌<◌, ◌≡◌, refl, false, ◌||◌, not, List, [], ◌∷◌, map, ltb, ◌==◌, length, Bytes,
  codes, bytes_eq, ok, arith,
}
use kv.Proto.Command.{Command, Value, array, bulk_string}
use kv.Proto.Command.Options.{lookup}
use kv.Proto.Command.Parse.{bulks, many_keys, chunks, parse_m_set}
use kv.Proto.Command.Table.{commands, parse}

abbrev pub pairs_of : List (Bytes × Bytes) → List Value
pairs_of [] = []
pairs_of ((k, v) ∷ ps) = bulk_string k ∷ bulk_string v ∷ pairs_of ps

-- The name and the arguments of a command whose arguments are byte strings.
abbrev pub request : Command → List Value
request (Command.get k) = bulk_string (codes "GET") ∷ bulk_string k ∷ []
request (Command.del ks) = bulk_string (codes "DEL") ∷ map bulk_string ks
request (Command.exists ks) = bulk_string (codes "EXISTS") ∷ map bulk_string ks
request (Command.m_get ks) = bulk_string (codes "MGET") ∷ map bulk_string ks
request (Command.m_set ps) = bulk_string (codes "MSET") ∷ pairs_of ps
request (Command.ttl k) = bulk_string (codes "TTL") ∷ bulk_string k ∷ []
request (Command.p_ttl k) = bulk_string (codes "PTTL") ∷ bulk_string k ∷ []
request (Command.persist k) = bulk_string (codes "PERSIST") ∷ bulk_string k ∷ []
request (Command.get_set k v) = bulk_string (codes "GETSET") ∷ bulk_string k ∷ bulk_string v ∷ []
request (Command.set_nx k v) = bulk_string (codes "SETNX") ∷ bulk_string k ∷ bulk_string v ∷ []
request (Command.get_del k) = bulk_string (codes "GETDEL") ∷ bulk_string k ∷ []
request (Command.incr k) = bulk_string (codes "INCR") ∷ bulk_string k ∷ []
request (Command.decr k) = bulk_string (codes "DECR") ∷ bulk_string k ∷ []
request (Command.get_revision k) = bulk_string (codes "REVISION") ∷ bulk_string k ∷ []
request (Command.get_meta k) = bulk_string (codes "GETMETA") ∷ bulk_string k ∷ []
request Command.db_size = bulk_string (codes "DBSIZE") ∷ []
request Command.flush_db = bulk_string (codes "FLUSHDB") ∷ []
request Command.quit = bulk_string (codes "QUIT") ∷ []
request Command.unwatch = bulk_string (codes "UNWATCH") ∷ []
request _ = []

-- The commands that `request` covers; a list of keys or pairs is not empty.
abbrev pub HasRequest : Command → Type 0
HasRequest (Command.del ks) = 0 < length ks
HasRequest (Command.exists ks) = 0 < length ks
HasRequest (Command.m_get ks) = 0 < length ks
HasRequest (Command.m_set ps) = 0 < length ps
HasRequest c = 0 < length (request c)

bulks-map : (ks : List Bytes) → bulks (map bulk_string ks) ≡ ok ks
unfolding bulks
bulks-map [] = refl
bulks-map (k ∷ ks) = rw (bulks-map ks) refl

chunks-pairs_of : (ps : List (Bytes × Bytes)) → chunks (pairs_of ps) ≡ ok ps
unfolding chunks
chunks-pairs_of [] = refl
chunks-pairs_of ((k, v) ∷ ps) = rw (chunks-pairs_of ps) refl

length-pairs_of : (ps : List (Bytes × Bytes)) → length (pairs_of ps) ≡ 2 * length ps
length-pairs_of [] = refl
length-pairs_of ((k, v) ∷ ps) = omega (arith, length-pairs_of ps)

many_keys-map :
    (k : Bytes) (ks : List Bytes) → bulks (bulk_string k ∷ map bulk_string ks) ≡ ok (k ∷ ks)
many_keys-map k ks = bulks-map (k ∷ ks)

even_length : (n : ℕ) → 0 < n → (ltb (2 * n) 2 || not ((2 * n) % 2 == 0)) ≡ false
even_length n h = ground arith

parse_m_set-pairs_of :
    (ps : List (Bytes × Bytes)) → 0 < length ps → parse_m_set (pairs_of ps) ≡ ok (Command.m_set ps)
unfolding parse_m_set
parse_m_set-pairs_of ps h =
    rw (length-pairs_of ps, even_length (length ps) h) (rw (chunks-pairs_of ps) refl)

-- parse reads the message of each of nineteen commands whose arguments are byte strings, among
-- them DEL, EXISTS, MGET and MSET with any number of keys or pairs above zero, back as that
-- command.
pub parse-request : (c : Command) → HasRequest c → parse (array (request c)) ≡ ok c
unfolding parse lookup commands bytes_eq many_keys
parse-request (Command.get k) h = refl
parse-request (Command.del (k ∷ ks)) h = rw (many_keys-map k ks) refl
parse-request (Command.exists (k ∷ ks)) h = rw (many_keys-map k ks) refl
parse-request (Command.m_get (k ∷ ks)) h = rw (many_keys-map k ks) refl
parse-request (Command.m_set ps) h = parse_m_set-pairs_of ps h
parse-request (Command.ttl k) h = refl
parse-request (Command.p_ttl k) h = refl
parse-request (Command.persist k) h = refl
parse-request (Command.get_set k v) h = refl
parse-request (Command.set_nx k v) h = refl
parse-request (Command.get_del k) h = refl
parse-request (Command.incr k) h = refl
parse-request (Command.decr k) h = refl
parse-request (Command.get_revision k) h = refl
parse-request (Command.get_meta k) h = refl
parse-request Command.db_size h = refl
parse-request Command.flush_db h = refl
parse-request Command.quit h = refl
parse-request Command.unwatch h = refl
parse-request _ h = elim h [ ]
