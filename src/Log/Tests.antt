-- ===== src/Log/Tests.antt =====
-- A log named "log" sends the message "hi".
use uvx.Prelude.{
  ◌≡◌, take, ◌-◌, ℕ, ◌+◌, ap, suc, ◌≢◌, refl, List, [], ◌∷◌, ◌++◌, none, some, arith, replicate,
  length-replicate,
}
use uvx.Memory.{Returns}
use uvx.Address.{inet}
use uvx.Loge.{LogeItem, Buffer, item_size, maxbuf}
use uvx.Loge.Path.{shorten_loop, last_slash, strrchr, shorten_path}
use uvx.Loge.Write.{text_of}
use uvx.Loge.Piece.{IsText}
use uvx.Loge.Laid.{Laid}
use uvx.Loge.Naming.{Named}
use uvx.Udp.{udp_send, Heap, uvx_udp_default_config}
use uvx.Log.{Log, uvx_log_send}
use uvx.Log.Macros.{uvx_log_macro, log_macro-Sent}
use uvx.Loge.Utf8.{Utf8, empty, char}
use uvx.Loge.Readable.{Readable}
use uvx.Loge.Text.{is_leading}
use uvx.Log.Sends.{disabled_sends, Sent, log_send-Sent}

abbrev log_text : List ℕ
log_text = b'l' ∷ b'o' ∷ b'g' ∷ []

abbrev greeting : List ℕ
greeting = b'h' ∷ b'i' ∷ []

abbrev xlog : Log
xlog = record {
  loge = record { name = log_text ++ replicate 13 0; enabled = 1; pid = 42; name_len = 3 };
  xudp = record { config = uvx_udp_default_config; trace = [] };
  target_addr = record { family = inet; bytes = replicate 16 0 };
}

suc_ne : {n : ℕ} → suc n ≢ 0
suc_ne e = absurd (omega arith)

greeting-IsText : IsText greeting
greeting-IsText = (suc_ne, (suc_ne, tt))

xlog-Named : Named xlog.loge log_text
xlog-Named = record {
  stored = refl;
  counted = refl;
  short = omega arith;
  width = refl;
  readable = (suc_ne, (suc_ne, (suc_ne, tt)));
}

abbrev stack : Buffer
stack = record {
  item = record {
    version = 0;
    magic1 = 0;
    magic2 = 0;
    level = 0;
    time = 0;
    pid = 0;
    tid = 0;
    line = 0;
    name_offset = 0;
    tags_offset = 0;
    file_offset = 0;
    msg_offset = 0;
    msg_len = 0;
    extra_offset = 0;
    flags = 0;
  };
  extra = replicate 996 7;
}

-- A stand-in for the layout of an item: all its bytes are its level.
abbrev image : LogeItem → List ℕ
image item = replicate 28 item.level

abbrev fresh : ℕ → List ℕ
fresh n = replicate n 0

abbrev empty_heap : Heap
empty_heap = record { behind = λ _. none; trace = [] }

none-IsText : IsText (text_of (shorten_path none))
unfolding shorten_path
none-IsText = tt

log_send-Sent_example :
    (out : ℕ × Buffer) × Laid log_text [] (text_of (shorten_path none)) greeting maxbuf out
    × Returns
        (uvx_log_send image fresh xlog empty_heap stack 3 none
          (some greeting)
          none
          10
          99
          1
          (some 9)
          0)
        (Sent image empty_heap xlog.target_addr 9 0 out.0 out.1)
log_send-Sent_example =
    log_send-Sent image fresh xlog empty_heap stack 3 10 99 1 9 0 none (some greeting) none log_text
      (λ item. length-replicate {A = ℕ} 28 item.level) (λ n. length-replicate {A = ℕ} n 0)
      (ap (λ k. k + item_size) (length-replicate {A = ℕ} 996 7)) xlog-Named suc_ne tt none-IsText

abbrev print_first : ℕ → List ℕ → List ℕ
print_first n s = take (n - 1) s

greeting-Utf8 : Utf8 greeting
unfolding is_leading
greeting-Utf8 = char b'h' [] (b'i' ∷ []) refl refl refl tt (char b'i' [] [] refl refl refl tt empty)

-- A file whose name is one letter.
abbrev short_file : List ℕ
short_file = b'a' ∷ []

file-IsText : IsText (text_of (shorten_path (some short_file)))
unfolding shorten_path shorten_loop last_slash strrchr
file-IsText = (suc_ne, tt)

file-Utf8 : Utf8 short_file
unfolding is_leading
file-Utf8 = char b'a' [] [] refl refl refl tt empty

log_macro-Sent_example :
    (out : ℕ × Buffer) × Laid log_text []
      (text_of (shorten_path (some short_file)))
      greeting
      maxbuf
      out
    × Readable out
    × Returns
        (uvx_log_macro print_first image fresh xlog empty_heap stack 3 none greeting short_file 10
          99 1
          (some 9)
          0)
        (Sent image empty_heap xlog.target_addr 9 0 out.0 out.1)
log_macro-Sent_example =
    log_macro-Sent print_first image fresh xlog empty_heap stack 3 10 99 1 9 0 none greeting
      short_file log_text (λ n s h t. refl) (λ item. length-replicate {A = ℕ} 28 item.level)
      (λ n. length-replicate {A = ℕ} n 0) (ap (λ k. k + item_size) (length-replicate {A = ℕ} 996 7))
      xlog-Named suc_ne (tt, empty) (file-IsText, file-Utf8) (greeting-IsText, greeting-Utf8)

abbrev switched_off : Log
switched_off = record xlog { loge = record xlog.loge { enabled = 0 } }

disabled_sends_example :
    Returns
      (uvx_log_send image fresh switched_off empty_heap stack 3 none
        (some greeting)
        none
        10
        99
        1
        (some 9)
        0)
      (λ r. (r.1.trace ≡ udp_send 9 xlog.target_addr 0 ∷ []) × (r.1.behind 9 ≡ some []))
disabled_sends_example =
    disabled_sends image fresh switched_off empty_heap stack 3 10 99 1 9 0 none (some greeting) none
      (λ n. length-replicate {A = ℕ} n 0) refl
