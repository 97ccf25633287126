-- ===== src/Binlog/Parser/Create.antt =====
-- binlog_read_json, binlog_parser_create and binlog_parser_destroy of src/binlog/binlog_parser.c: the
-- files are opened, the first block of the log is read, and what is held is given back.
use cc_utils.Base.{
  ℕ, zero, suc, ◌+◌, ◌^◌, Bool, true, false, Option, none, some, List, [], ◌∷◌, ◌++◌, ltb,
  if◌then◌else◌, length, ◌⊎◌, inl, inr,
}
use cc_utils.Base.Outcome.{Outcome, ok, fault, ◌>>=◌}
use cc_utils.Base.Bytes.{Bytes}
use cc_utils.Base.Int.{ℤ, pos, negsuc}
use cc_utils.Binlog.Parser.Find.{Item}
use cc_utils.Binlog.Parser.Loop.{Reader, Parser, binlog_parse_read}

-- What the system calls bring: the log and the JSON file, or the errno with which they do not open;
-- the size of the log, less than 2 GB, or the errno of stat(); that of the output file's fopen();
-- the size of the JSON file, 0 if stat() fails; whether read() of it and malloc() succeed; and what
-- cJSON_Parse makes of its text.
pub record Files : Type 0 where
  pub log : ℕ ⊎ Bytes
  pub log_size : ℕ ⊎ ℕ
  pub output : Option ℕ
  pub json : ℕ ⊎ Bytes
  pub json_read : Bool
  pub got_buf : Bool
  pub parse : Bytes → List Item

-- -errno
abbrev pub minus : ℕ → ℤ
minus zero = pos 0
minus (suc n) = negsuc n

-- What the parser holds: the descriptors of the log and of the JSON file, the output stream, the block
-- and the array of the formats.
pub data Resource : Type 0 where
  log_file json_file output_stream block json_array : Resource

abbrev pub same_resource : Resource → Resource → Bool
same_resource log_file log_file = true
same_resource json_file json_file = true
same_resource output_stream output_stream = true
same_resource block block = true
same_resource json_array json_array = true
same_resource _ _ = false

-- close(), fclose(), free() and cJSON_Delete(), which do nothing to what is not there.
abbrev pub release : Resource → List Resource → List Resource
release r [] = []
release r (x ∷ held) = let rest = release r held in if same_resource r x then rest else x ∷ rest

-- `json_arr`, not set where read() failed; that is not reported. The JSON file is not closed.
unfoldable pub binlog_read_json : Files → ℕ ⊎ Bytes → (ℤ ⊎ Option (List Item)) × List Resource
binlog_read_json files (inl errno) = (inl (minus errno), [])
binlog_read_json files (inr []) = (inl (negsuc 0), json_file ∷ [])
binlog_read_json files (inr (c ∷ text)) =
    if files.json_read
    then (inr (some (files.parse (c ∷ text))), json_array ∷ json_file ∷ [])
    else (inr none, json_file ∷ [])

-- What binlog_parser_create returns or leaves in the parser, and what is held then.
abbrev pub Created : Type 0
Created = (ℤ ⊎ (Parser × Option (List Item))) × List Resource

-- The block, and the parser in front of the first read().
abbrev pub block_size : ℕ
block_size = 2 ^ 22

abbrev pub opened : Bytes → ℕ → Parser
opened file file_size = record {
  buf = [];
  size = block_size;
  offset = 0;
  rest = file;
  file_offset = 0;
  file_size = file_size;
}

-- malloc() of the block
abbrev pub got_block : Files → List Resource → List Resource
got_block files held = if files.got_buf then block ∷ held else held

-- Behind the JSON file. A read() into a null pointer fails, and so does the assert behind it.
unfoldable pub create_block :
    Reader → Files → Bytes → Option (List Item) → List Resource → ℕ ⊎ ℕ → Outcome Created
create_block reader files file items held (inl errno) = ok (
  inl (minus errno),
  release json_array (release log_file (release output_stream (got_block files held))),
)
create_block reader files file items held (inr size) =
    if files.got_buf
    then (do
      p ← binlog_parse_read reader (opened file size)
      ok (inr (p, items), got_block files held))
    else fault

unfoldable pub create_json :
    Reader
    → Files
    → Bytes
    → List Resource
    → (ℤ ⊎ Option (List Item)) × List Resource
    → Outcome Created
create_json reader files file held (inl rc, more) = ok (inl rc, more ++ held)
create_json reader files file held (inr items, more) =
    create_block reader files file items (more ++ held) files.log_size

unfoldable pub create_output : Reader → Files → Bytes → List Resource → Option ℕ → Outcome Created
create_output reader files file held (some errno) = ok (inl (minus errno), release log_file held)
create_output reader files file held none =
    create_json reader files file (output_stream ∷ held) (binlog_read_json files files.json)

unfoldable pub create_log : Reader → Files → ℕ ⊎ Bytes → Outcome Created
create_log reader files (inl errno) = ok (inl (minus errno), [])
create_log reader files (inr file) = create_output reader files file (log_file ∷ []) files.output

-- "/var/log/tmp/" has 13 characters, the path 127 at most; -ENAMETOOLONG is -36.
unfoldable pub binlog_parser_create : Reader → Files → Bytes → Outcome Created
binlog_parser_create reader files name =
    if ltb 127 (13 + length name)
    then ok (inl (negsuc 35), [])
    else create_log reader files files.log

-- The output stream stays open.
unfoldable pub binlog_parser_destroy : List Resource → List Resource
binlog_parser_destroy held = release json_array (release block (release log_file held))
