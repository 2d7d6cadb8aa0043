-- ===== src/Pgoutput/Tests.antt =====
-- Runs of the decoder on the messages of the unit test of src/pgoutput.rs, and the theorems at
-- concrete inputs.
use nabla.Base.{
  suc, ℕ, ◌≡◌, ◌↔◌, refl, List, [], ◌∷◌, ◌++◌, none, some, true, false, ok, arith, map, Text, codes,
  Option, get_elem?, position,
}
use nabla.Base.Int.{negsuc}
use nabla.Base.Utf8.{from_utf8_lossy, utf8_lossy, utf8_byte, utf8_start, to_utf8, utf8_char}
use nabla.Pgoutput.Types.{RelationColumn, Relation, ColumnValue, Tuple, Message}
use nabla.Pgoutput.Reader.{
  take, from_be, word, u8, i16, i32, u32, cstring, column_value, repeat, tuple, ◌>>>◌, pure,
}
use nabla.Pgoutput.Decode.{decode, decode_kind, decode_relation, decode_column, decode_insert}
use nabla.Pgoutput.Decoder.{Decoder, Relations, empty, learn, keep_types, absorb, feed_all}
use nabla.Pgoutput.Encode.{encode}
use nabla.Pgoutput.RoundTrip.{decode-encode}
use nabla.Pgoutput.Stream.{Frame, bytes_of, Sent, all_messages, received, feed_all-transactions}
use nabla.Pgoutput.Cache.{
  unresolved, learn-unresolved, IsKeptColumn, keep_types-IsKeptColumn, Accepts, absorb-Accepts,
}

-- `decodes_relation_and_insert` of the source.
abbrev relation_bytes : List ℕ
relation_bytes =
    b'R'
    ∷ 0
    ∷ 0
    ∷ 0
    ∷ 16
    ∷ (codes "public"
        ++ (0
            ∷ (codes "orders"
                ++ (0
                    ∷ b'd'
                    ∷ 0
                    ∷ 2
                    ∷ 1
                    ∷ (codes "id"
                        ++ (0
                            ∷ 0
                            ∷ 0
                            ∷ 0
                            ∷ 20
                            ∷ 255
                            ∷ 255
                            ∷ 255
                            ∷ 255
                            ∷ 0
                            ∷ (codes "k" ++ (0 ∷ 0 ∷ 0 ∷ 0 ∷ 23 ∷ 255 ∷ 255 ∷ 255 ∷ 255 ∷ []))))))))

abbrev column : Text → ℕ → Option Text → RelationColumn
column name typid ty = record {
  name = name;
  is_key = false;
  typid = typid;
  typmod = negsuc 0;
  type_name = ty;
}

abbrev orders : Relation
orders = record {
  id = 16;
  namespace = codes "public";
  name = codes "orders";
  replident = b'd';
  columns =
      record (column (codes "id") 20 none) { is_key = true } ∷ column (codes "k") 23 none ∷ [];
}

decodes_relation : decode relation_bytes ≡ ok (Message.relation orders)
unfolding decode decode_kind decode_relation decode_column u8 i16 i32 u32 cstring repeat word take
    from_be pure ◌>>>◌ from_utf8_lossy utf8_lossy utf8_byte utf8_start position
decodes_relation = refl

abbrev insert_bytes : List ℕ
insert_bytes = b'I' ∷ 0 ∷ 0 ∷ 0 ∷ 16 ∷ b'N' ∷ 0 ∷ 2 ∷ b't' ∷ 0 ∷ 0 ∷ 0 ∷ 2 ∷ b'4' ∷ b'2' ∷ b'n' ∷ []

decodes_insert :
    decode insert_bytes
    ≡ ok (Message.insert 16 (ColumnValue.text (codes "42") ∷ ColumnValue.null ∷ []))
unfolding decode decode_kind decode_insert tuple column_value u8 i16 i32 u32 repeat word take
    from_be pure ◌>>>◌ from_utf8_lossy utf8_lossy utf8_byte utf8_start
decodes_insert = refl

lossy_replaces : from_utf8_lossy (0xe2 ∷ 0x82 ∷ b'a' ∷ 0xc3 ∷ 0xa9 ∷ []) ≡ 0xfffd ∷ b'a' ∷ 0xe9 ∷ []
unfolding from_utf8_lossy utf8_lossy utf8_byte utf8_start
lossy_replaces = refl

abbrev row : Tuple
row = ColumnValue.text (codes "42") ∷ ColumnValue.null ∷ []

abbrev update : Message
update = Message.update 16 (some (b'O', row)) (ColumnValue.unchanged ∷ ColumnValue.null ∷ [])

decode-encode_example : decode (encode 7 0 update ++ (1 ∷ [])) ≡ ok update
unfolding to_utf8 utf8_char
decode-encode_example = decode-encode 7 0 update (1 ∷ []) (omega arith) (omega arith) (ground arith)

abbrev sent : Sent
sent = record {
  xid = 5;
  final_lsn = 90;
  commit_lsn = 90;
  end_lsn = 100;
  body = Message.insert 16 row ∷ Message.delete 16 b'K' row ∷ [];
}

abbrev timed : ℕ → List Message → List Frame
timed ts [] = []
timed ts (m ∷ ms) = record { ts = ts; flags = 1; message = m } ∷ timed (suc ts) ms

-- The BEGIN and the COMMIT at different times.
abbrev frames : List Frame
frames = timed 7 (all_messages (sent ∷ []))

feed_all-transactions_example :
    feed_all (map bytes_of frames) empty ≡ ok (record empty { complete = received sent ∷ [] })
unfolding to_utf8 utf8_char empty
feed_all-transactions_example =
    feed_all-transactions frames (sent ∷ []) (λ _. none) [] refl (ground arith) (ground arith)

abbrev resolved : Relation
resolved = record orders { columns = column (codes "k") 23 (some (codes "integer")) ∷ [] }

abbrev known : Relations
known id = some resolved

learn-unresolved_example : learn known (unresolved resolved) 16 ≡ known 16
learn-unresolved_example = learn-unresolved known resolved 16 refl

keep_types-IsKeptColumn_example :
    (c : RelationColumn) × (get_elem?
        (keep_types (column (codes "k") 23 none ∷ []) resolved.columns)
        0
      ≡ some c)
    × IsKeptColumn (column (codes "k") 23 none) (get_elem? resolved.columns 0) c
keep_types-IsKeptColumn_example =
    keep_types-IsKeptColumn (column (codes "k") 23 none ∷ []) resolved.columns 0
      (column (codes "k") 23 none) refl refl

absorb-Accepts_example :
    ((d' : Decoder) × (absorb (Message.begin 90 5) empty ≡ ok d'))
    ↔ Accepts (Message.begin 90 5) empty
absorb-Accepts_example = absorb-Accepts (Message.begin 90 5) empty
