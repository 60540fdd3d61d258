-- ===== src/Loge.antt =====
-- loge/loge.c and loge/loge.h: log items serialized into a buffer. A text is its bytes without the
-- end, and `none` is a null pointer. The buffer is the `loge_item_t` at its start, as a record, and
-- the bytes behind it; pointers into these bytes are offsets. The clock, the process and the thread
-- are arguments.
pub mod Text
pub mod Path
pub mod Write
pub mod Binary
pub mod Piece
pub mod Laid
pub mod Utf8
pub mod Readable
pub mod Naming
pub mod Items
pub mod Layout
pub mod Small
mod Tests
use uvx.Prelude.{
  ℕ, zero, suc, ◌+◌, ◌-◌, ◌*◌, ◌/◌, ◌%◌, ◌^◌, min, Bool, true, false, ◌||◌, not, List, [], ◌∷◌,
  ◌++◌, Option, none, some, length, take, drop, get_or, ltb, leb, ◌==◌, if◌then◌else◌,
}
use uvx.Memory.{Block, Run, ok, fault, ◌>>=◌, ◌>>◌, assert, store}
use Text.{write_str, write_bin}
use Path.{shorten_path}

-- `loge_t`; `name` is the array of 16 bytes.
pub record Loge : Type 0 where
  pub name : Block
  pub enabled : ℕ
  pub pid : ℕ
  pub name_len : ℕ

-- `loge_item_t`
pub record LogeItem : Type 0 where
  pub version : ℕ
  pub magic1 : ℕ
  pub magic2 : ℕ
  pub level : ℕ
  pub time : ℕ
  pub pid : ℕ
  pub tid : ℕ
  pub line : ℕ
  pub name_offset : ℕ
  pub tags_offset : ℕ
  pub file_offset : ℕ
  pub msg_offset : ℕ
  pub msg_len : ℕ
  pub extra_offset : ℕ
  pub flags : ℕ

-- The output buffer.
pub record Buffer : Type 0 where
  pub item : LogeItem
  pub extra : Block

-- `msg` and `msglen`: -1 announces a text. `bin` has the byte behind its data, which `write_bin`
-- copies too.
pub data Message : Type 0 where
  text : Option (List ℕ) → Message
  bin : Option (List ℕ) → ℕ → Message

-- `sizeof(loge_item_t)` and `LOGE_MAXBUF`
abbrev pub item_size : ℕ
item_size = 28

abbrev pub maxbuf : ℕ
maxbuf = 1024

-- `sizeof(loge->name)`
abbrev pub name_size : ℕ
name_size = 16

pub loge_name : Loge → Option (List ℕ) → Run Loge
loge_name l none = ok l
loge_name l (some name) = do
  let n = min (length name) (name_size - 1)
  assert (ltb n name_size)
  copied ← store l.name 0 (take n name)
  ended ← store copied n (0 ∷ [])
  ok (record l { name = ended; name_len = n })

pub loge_enable : Loge → ℕ → Loge
loge_enable l enabled = record l { enabled = enabled }

abbrev pub default_name : List ℕ
default_name = b'l' ∷ b'o' ∷ b'g' ∷ b'e' ∷ []

pub loge_init : Loge → Option (List ℕ) → ℕ → Run Loge
unfolding loge_name
loge_init l name getpid = do
  l' ← loge_name l (elim name [ none ↦ some default_name | some n ↦ some n ])
  ok (record l' { enabled = 1; pid = getpid })

-- The message, by `write_str` or by `write_bin`, whose null result is `none`.
pub write_message : Block → ℕ → ℕ → Message → Run (Block × Option ℕ)
unfolding write_str write_bin
write_message b p end (text msg) = do (b', p') ← write_str b p end msg; ok (b', some p')
write_message b p end (bin msg beyond) = write_bin b p end msg beyond

-- The stores into `item` that stand before the texts.
pub start_item : Loge → LogeItem → ℕ → ℕ → ℕ → ℕ → LogeItem
start_item l item level now tid line = record item {
  version = 1;
  magic1 = 0x4c;
  magic2 = 0xaf;
  level = level % 2 ^ 8;
  time = now % 2 ^ 32;
  pid = l.pid;
  tid = tid;
  line = line;
  name_offset = 0;
  extra_offset = item_size;
  flags = 0;
}

-- The size that is returned, with the buffer as it is left.
pub loge_item_bin :
    Loge
    → Buffer
    → ℕ
    → ℕ
    → Option (List ℕ)
    → Message
    → Option (List ℕ)
    → ℕ
    → ℕ
    → ℕ
    → Run (ℕ × Buffer)
unfolding write_message write_str shorten_path start_item
loge_item_bin l buf bufsize level tags msg file line now tid = do
  assert (ltb item_size bufsize)
  if l.enabled == 0 then ok (0, buf) else (do
    let end = min bufsize maxbuf - item_size
    assert (ltb name_size (min 255 end))
    e1 ← store buf.extra 0 (take (l.name_len + 1) l.name)
    let p1 = l.name_len + 1
    (e2, p2) ← write_str e1 p1 255 tags
    (e3, p3) ← write_str e2 p2 255 (shorten_path file)
    (e4, p4) ← write_message e3 p3 end msg
    let item = record (start_item l buf.item level now tid line) {
      tags_offset = p1 % 2 ^ 8;
      file_offset = p2 % 2 ^ 8;
      msg_offset = p3 % 2 ^ 8;
    }
    elim p4 [
      | none ↦ ok (0, record { item = item; extra = e4 })
      | some p ↦ ok (
        p + item_size,
        record {
          item = record item { msg_len = (p + 2 ^ 16 - item.msg_offset - 1) % 2 ^ 16 };
          extra = e4;
        },
      )
    ])

pub loge_item :
    Loge
    → Buffer
    → ℕ
    → ℕ
    → Option (List ℕ)
    → Option (List ℕ)
    → Option (List ℕ)
    → ℕ
    → ℕ
    → ℕ
    → Run (ℕ × Buffer)
unfolding loge_item_bin
loge_item l buf bufsize level tags msg file line now tid =
    loge_item_bin l buf bufsize level tags (text msg) file line now tid
