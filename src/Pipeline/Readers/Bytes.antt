-- ===== src/Pipeline/Readers/Bytes.antt =====
-- The format of a file, from its content: `sniff_format` of pipeline/readers.py.
use data_effi.Prelude.{
  ℕ, zero, suc, ◌+◌, Bool, true, false, ◌&&◌, ◌||◌, List, [], ◌∷◌, String, ◌==◌, leb, if◌then◌else◌,
  any,
}

abbrev pub Bytes : Type 0
Bytes = List ℕ

pub data Format : Type 0 where
  xlsx html csv xls_binary : Format

-- b.startswith(prefix)
unfoldable pub begins : Bytes → Bytes → Bool
begins b [] = true
begins [] (d ∷ p) = false
begins (c ∷ b) (d ∷ p) = c == d && begins b p

-- `part in b`, of a part that is not empty
unfoldable pub holds : Bytes → Bytes → Bool
unfolding begins
holds [] part = false
holds (c ∷ b) part = begins (c ∷ b) part || holds b part

-- b[:n]
unfoldable pub first_bytes : ℕ → Bytes → Bytes
first_bytes zero b = []
first_bytes (suc n) [] = []
first_bytes (suc n) (c ∷ b) = c ∷ first_bytes n b

-- the bytes that `bytes.lstrip` removes
abbrev pub is_blank_byte : ℕ → Bool
is_blank_byte c = c == 32 || (leb 9 c && leb c 13)

unfoldable pub lstrip_bytes : Bytes → Bytes
lstrip_bytes [] = []
lstrip_bytes (c ∷ b) = if is_blank_byte c then lstrip_bytes b else c ∷ b

abbrev lower_byte : ℕ → ℕ
lower_byte c = if leb 65 c && leb c 90 then c + 32 else c

-- bytes.lower
unfoldable pub lower_bytes : Bytes → Bytes
lower_bytes [] = []
lower_bytes (c ∷ b) = lower_byte c ∷ lower_bytes b

-- _ZIP_MAGIC and _OLE2_MAGIC
abbrev zip_magic : Bytes
zip_magic = 0x50 ∷ 0x4b ∷ 0x03 ∷ 0x04 ∷ []

abbrev ole2_magic : Bytes
ole2_magic = 0xd0 ∷ 0xcf ∷ 0x11 ∷ 0xe0 ∷ 0xa1 ∷ 0xb1 ∷ 0x1a ∷ 0xe1 ∷ []

-- b"<", that with a byte order mark, and b"<table"
abbrev tag_start : Bytes
tag_start = 0x3c ∷ []

abbrev marked_tag_start : Bytes
marked_tag_start = 0xef ∷ 0xbb ∷ 0xbf ∷ 0x3c ∷ []

abbrev table_tag : Bytes
table_tag = 0x3c ∷ 0x74 ∷ 0x61 ∷ 0x62 ∷ 0x6c ∷ 0x65 ∷ []

unfoldable pub looks_like_html : Bytes → Bool
unfolding begins holds first_bytes lstrip_bytes lower_bytes
looks_like_html head =
    let lowered = lower_bytes (first_bytes 512 (lstrip_bytes head)) in
    begins lowered tag_start
    || begins lowered marked_tag_start
    || holds (lower_bytes head) table_tag

-- `ends_with` is the test of the lowered name by str.endswith
format_of_name : (String → Bool) → Format
format_of_name ends_with =
    if any ends_with (".xlsx" ∷ ".xlsm" ∷ [])
    then Format.xlsx
    else if any ends_with (".html" ∷ ".htm" ∷ [])
    then Format.html
    else Format.csv

unfoldable pub sniff_format : Bytes → (String → Bool) → Format
unfolding first_bytes begins looks_like_html format_of_name
sniff_format payload ends_with =
    let head = first_bytes 2048 payload in
    if begins head zip_magic
    then Format.xlsx
    else if begins head ole2_magic
    then Format.xls_binary
    else if looks_like_html head
    then Format.html
    else format_of_name ends_with
