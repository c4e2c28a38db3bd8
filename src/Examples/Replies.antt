-- ===== src/Examples/Replies.antt =====
-- A reply in a format that has a code and a message, which may not hold a NUL, and no pairs.
use o2k.Prelude.{
  ℕ, ℤ, zero, suc, ◌≡◌, refl, ap, ◌∙◌, pos, Bool, true, ◌&&◌, List, [], ◌∷◌, ◌++◌, length, take,
  drop, take_front, drop_front, Option, none, some, if◌then◌else◌, bytes_eq, until_nul, codes,
  Bool-cases, inl, inr, arith,
}
use o2k.Outcome.{ok, Returns, ◌>>=◌}
use o2k.StrMap.{StrMap}
use o2k.StrMap.Lookup.{bytes_eq→eq}
use o2k.SysError.Bounds.{until_nul-append}
use o2k.AdminMsg.{MsgHeaderWrap, MsgResult, PairStrStr, Codec, default_cmd, type_result}
use o2k.MsgRw.{make_msg_hdr, new_msg_rw}
use o2k.MsgRw.Messages.{reply_result, read_result}
use o2k.MsgRw.Reply.{reply_msg, IsWire, reply_result-read_result}
use o2k.AdmClient.Session.{new_msg_rw-IsWellFormed, not_Overflows-new}
use o2k.Examples.Kernel.{Net, net_os, net_stream, net_healthy}

abbrev is_plain : List ℕ → Bool
is_plain t = bytes_eq (until_nul t) t

abbrev write_plain : List ℕ → List ℕ → List PairStrStr → Option (List ℕ)
write_plain rc msg [] =
    if is_plain rc && is_plain msg then some (1 ∷ suc (length rc) ∷ (rc ++ msg)) else none
write_plain rc msg (p ∷ ps) = none

abbrev read_plain : List ℕ → Option MsgResult
read_plain (suc zero ∷ suc n ∷ bs) = some (reply_msg (take n bs) (drop n bs) [])
read_plain bs = none

abbrev read_header : List ℕ → Option MsgHeaderWrap
read_header [] = none
read_header (b ∷ bs) = some (record { msg_header = some (make_msg_hdr type_result); unknown = [] })

abbrev plain_codec : Codec
plain_codec = record {
  parse_wrap = read_header;
  parse_cmd = λ bs. some (record default_cmd { cmd = bs });
  parse_result = read_plain;
  parse_metrics = λ _. none;
  serialize_cmd = λ m. some m.cmd;
  serialize_result = λ m. write_plain m.rc m.msg m.rt_pairs;
}

both_plain : (a b : Bool) → (a && b) ≡ true → (a ≡ true) × (b ≡ true)
both_plain a b h = ground arith

-- What is written is plain, and is all that there is.
written :
    (rc msg : List ℕ) (apdmsg : StrMap) (pkg : List ℕ)
    → plain_codec.serialize_result (reply_msg rc msg apdmsg) ≡ some pkg
    → (apdmsg ≡ [])
      × (until_nul rc ≡ rc)
      × (until_nul msg ≡ msg)
      × (pkg ≡ 1 ∷ suc (length rc) ∷ (rc ++ msg))
written rc msg (kv ∷ m) pkg e = cc
written rc msg [] pkg e = elim (Bool-cases (is_plain rc && is_plain msg)) [
  | inr other ↦ cc (rw other at e)
  | inl plain ↦
      let (a, b) = both_plain (is_plain rc) (is_plain msg) plain in
      let made = rw plain at e in
      (refl, bytes_eq→eq (until_nul rc) rc a, bytes_eq→eq (until_nul msg) msg b, cc)
]

plain_uncut :
    (rc msg : List ℕ) (apdmsg : StrMap) (pkg : List ℕ)
    → plain_codec.serialize_result (reply_msg rc msg apdmsg) ≡ some pkg
    → until_nul pkg ≡ pkg
plain_uncut rc msg apdmsg pkg e =
    let (_, a, b, same) = written rc msg apdmsg pkg e in
    rw same (ap (λ t. 1 ∷ suc (length rc) ∷ t) (until_nul-append rc msg a ∙ ap (λ t. rc ++ t) b))

plain_back :
    (rc msg : List ℕ) (apdmsg : StrMap) (pkg : List ℕ)
    → plain_codec.serialize_result (reply_msg rc msg apdmsg) ≡ some pkg
    → read_plain pkg ≡ some (reply_msg rc msg apdmsg)
plain_back rc msg apdmsg pkg e =
    let (no_pairs, _, _, same) = written rc msg apdmsg pkg e in
    rw (same, no_pairs)
      (rw (take_front (length rc) rc msg refl, drop_front (length rc) rc msg refl) refl)

plain_header :
    (rc msg : List ℕ) (apdmsg : StrMap) (pkg : List ℕ)
    → plain_codec.serialize_result (reply_msg rc msg apdmsg) ≡ some pkg
    → read_header pkg ≡ some (record { msg_header = some (make_msg_hdr type_result); unknown = [] })
plain_header rc msg apdmsg pkg e = rw (written rc msg apdmsg pkg e).3 refl

abbrev plain_wire : IsWire plain_codec
plain_wire = record {
  is_text = λ _. true;
  result_back = λ rc msg apdmsg pkg _ e. plain_back rc msg apdmsg pkg e;
  header_back = λ rc msg apdmsg pkg e. ([], plain_header rc msg apdmsg pkg e);
  front_fails = λ rc msg apdmsg pkg e cut. absurd (cut (plain_uncut rc msg apdmsg pkg e));
}

abbrev idle : Net
idle = record { inbox = []; outbox = []; pieces = 2 ∷ 0 ∷ []; error = 0 }

-- The client's end, with pieces of its own.
abbrev client : Net → Net
client w = record { inbox = w.outbox; outbox = []; pieces = 1 ∷ 0 ∷ 3 ∷ []; error = 0 }

reply_result-read_result_example :
    Returns
      (λ (end : ℤ × Option MsgResult).
        (end.0 ≡ pos 0) × (end.1 ≡ some (reply_msg (codes "OK") (codes "done") [])))
      (reply_result net_os plain_codec 40
          (codes "OK")
          (codes "done")
          []
          (new_msg_rw net_os (pos 4) idle)
          idle
        >>= λ (code, _, w).
            read_result net_os plain_codec 40 (new_msg_rw net_os (pos 3) idle) (client w)
            >>= λ (m, _, _). ok (code, m))
unfolding new_msg_rw
reply_result-read_result_example =
    reply_result-read_result net_os net_stream net_healthy net_os net_stream net_healthy client
      plain_codec plain_wire 40 (codes "OK") (codes "done") [] (1 ∷ 3 ∷ codes "OKdone")
      (new_msg_rw net_os (pos 4) idle) (new_msg_rw net_os (pos 3) idle) idle (λ _. refl)
      (λ _. omega arith) (omega arith) (refl, refl, tt) refl (omega arith) (omega arith)
      (new_msg_rw-IsWellFormed net_os (pos 3) idle) (not_Overflows-new net_os (pos 3) idle 8) refl
