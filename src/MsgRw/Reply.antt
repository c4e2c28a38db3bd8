-- ===== src/MsgRw/Reply.antt =====
-- A server's reply and the client that reads it.
use o2k.Prelude.{
  ℕ, ◌+◌, ◌^◌, ◌≤◌, ◌<◌, ◌≡◌, ◌≢◌, refl, ap, sym, ◌∙◌, inl, inr, ℤ, pos, ==ℤ_refl, Bool, true, List,
  [], ◌++◌, map, All, length, append-nil, Option, none, some, Bool-cases, bytes_eq, until_nul,
  arith,
}
use o2k.Outcome.{ok, Returns, Returns-ok, Returns-bind, ◌>>=◌}
use o2k.Os.{Os, IsStream, IsHealthy}
use o2k.Socket.Framing.{packet}
use o2k.StrMap.{StrMap}
use o2k.StrMap.Lookup.{bytes_eq→eq, bytes_eq_refl}
use o2k.AdminMsg.{MsgResult, Codec, default_result, type_result}
use o2k.MsgRw.{MsgRw, make_msg_hdr, max_adm_pkg, parse_either}
use o2k.MsgRw.Buffer.{IsWellFormed, Overflows}
use o2k.MsgRw.Messages.{pair_of, reply_result, read_result}
use o2k.MsgRw.Exchange.{parse_text, answer, read_message-packet, send_complete}

-- The message that `ReplyResult` makes.
abbrev pub reply_msg : List ℕ → List ℕ → StrMap → MsgResult
reply_msg rc msg apdmsg = record default_result {
  msg_header = some (make_msg_hdr type_result);
  rc = rc;
  msg = msg;
  rt_pairs = map pair_of apdmsg;
}

-- The texts of a reply, each of which `is_text` accepts.
abbrev pub AreTexts : (List ℕ → Bool) → List ℕ → List ℕ → StrMap → Type 0
AreTexts is_text rc msg apdmsg =
    (is_text rc ≡ true)
    × (is_text msg ≡ true)
    × All (λ kv. (is_text kv.0 ≡ true) × (is_text kv.1 ≡ true)) apdmsg

-- What the wire format of protobuf promises of a reply whose texts are UTF-8 (`is_text`): it parses to
-- itself, and as a message of which only the header is declared; and a front of it that ends before a NUL
-- does not parse, since no field starts with a NUL.
pub record IsWire (codec : Codec) : Type 0 where
  pub is_text : List ℕ → Bool
  pub result_back :
      (rc msg : List ℕ) (apdmsg : StrMap) (pkg : List ℕ)
      → AreTexts is_text rc msg apdmsg
      → codec.serialize_result (reply_msg rc msg apdmsg) ≡ some pkg
      → codec.parse_result pkg ≡ some (reply_msg rc msg apdmsg)
  pub header_back :
      (rc msg : List ℕ) (apdmsg : StrMap) (pkg : List ℕ)
      → codec.serialize_result (reply_msg rc msg apdmsg) ≡ some pkg
      → (unknown : List ℕ) × (codec.parse_wrap pkg
          ≡ some (record { msg_header = some (make_msg_hdr type_result); unknown = unknown }))
  pub front_fails :
      (rc msg : List ℕ) (apdmsg : StrMap) (pkg : List ℕ)
      → codec.serialize_result (reply_msg rc msg apdmsg) ≡ some pkg
      → until_nul pkg ≢ pkg
      → (codec.parse_result (until_nul pkg) ≡ none) × (codec.parse_wrap (until_nul pkg) ≡ none)

-- Of the two tries the one on the whole packet decides.
parse_text_lem {ℓ} :
    {A : Type ℓ} (parse : List ℕ → Option A) (p : List ℕ) (m : A)
    → parse p ≡ some m
    → (until_nul p ≢ p → parse (until_nul p) ≡ none)
    → parse_text parse p ≡ some m
unfolding parse_either
parse_text_lem parse p m whole front = elim (Bool-cases (bytes_eq (until_nul p) p)) [
  | inl same ↦ rw (bytes_eq→eq (until_nul p) p same) (rw (whole, parse_either) refl)
  | inr apart ↦
      let fails = front λ e. let unequal = rw e at apart in cc (bytes_eq_refl p, unequal) in
      rw (fails, parse_either) whole
]

answer-reply_msg :
    (codec : Codec) (wire : IsWire codec) (rc msg : List ℕ) (apdmsg : StrMap) (pkg : List ℕ)
    → AreTexts wire.is_text rc msg apdmsg
    → codec.serialize_result (reply_msg rc msg apdmsg) ≡ some pkg
    → answer codec type_result codec.parse_result pkg ≡ some (reply_msg rc msg apdmsg)
answer-reply_msg codec wire rc msg apdmsg pkg texts made =
    let (unknown, header) = wire.header_back rc msg apdmsg pkg made in
    let front = wire.front_fails rc msg apdmsg pkg made in
    rw
      (
        parse_text_lem codec.parse_wrap pkg _ header (λ cut. (front cut).1),
        parse_text_lem codec.parse_result pkg (reply_msg rc msg apdmsg)
            (wire.result_back rc msg apdmsg pkg texts made) (λ cut. (front cut).0),
      )
      refl

-- What `ReplyResult` leaves on a connection that stands.
reply_result-Returns :
    {World : Type 0} (os : Os World) (stream : IsStream os) (healthy : IsHealthy os stream)
    (codec : Codec) (fuel : ℕ) (rc msg : List ℕ) (apdmsg : StrMap) (pkg : List ℕ) (s : MsgRw)
    (w : World)
    → codec.serialize_result (reply_msg rc msg apdmsg) ≡ some pkg
    → length pkg < 2 ^ 31
    → length pkg + 4 + stream.signals w < fuel
    → Returns
        (λ end.
          (end.0 ≡ pos 0) × (stream.outbox end.2 s.sock ≡ stream.outbox w s.sock ++ packet pkg))
        (reply_result os codec fuel rc msg apdmsg s w)
unfolding reply_result
reply_result-Returns os stream healthy codec fuel rc msg apdmsg pkg s w made small enough =
    rw (made, reply_result)
      (Returns-bind _ _ (send_complete os stream healthy fuel pkg s w small enough)
        λ x _ q. Returns-ok _ (rw (q.code, ==ℤ_refl (pos (length pkg))) refl, q.in_order))

-- Two connections that stand, of which the second reads what the first writes, and the wire format of
-- protobuf: the result that a server makes with `ReplyResult`, of any code, message and pairs in UTF-8, is the
-- one that `ReadResult` gives the client, where the packet fits its buffers; and `ReplyResult` returns 0.
pub reply_result-read_result :
    {World World' : Type 0} (os : Os World) (stream : IsStream os) (healthy : IsHealthy os stream)
    (os' : Os World') (stream' : IsStream os') (healthy' : IsHealthy os' stream')
    (peer : World → World') (codec : Codec) (wire : IsWire codec) (fuel : ℕ) (rc msg : List ℕ)
    (apdmsg : StrMap) (pkg : List ℕ) (s s' : MsgRw) (w : World)
    → ((w' : World) → stream'.inbox (peer w') s'.sock ≡ stream.outbox w' s.sock)
    → ((w' : World) → length pkg + 4 + stream'.signals (peer w') < fuel)
    → length pkg + 4 + stream.signals w < fuel
    → AreTexts wire.is_text rc msg apdmsg
    → codec.serialize_result (reply_msg rc msg apdmsg) ≡ some pkg
    → 0 < length pkg
    → length pkg ≤ max_adm_pkg
    → IsWellFormed s'
    → ¬ Overflows (length pkg) s'
    → stream.outbox w s.sock ≡ []
    → Returns
        (λ (end : ℤ × Option MsgResult). (end.0 ≡ pos 0) × (end.1 ≡ some (reply_msg rc msg apdmsg)))
        (reply_result os codec fuel rc msg apdmsg s w >>= λ (code, _, w').
          read_result os' codec fuel s' (peer w') >>= λ (m, _, _). ok (code, m))
unfolding read_result
reply_result-read_result os stream healthy os' stream' healthy' peer codec wire fuel rc msg apdmsg
      pkg s s' w joined enough' enough texts made some_bytes short v no_over empty =
    Returns-bind _ _
      (reply_result-Returns os stream healthy codec fuel rc msg apdmsg pkg s w made (omega arith)
        enough)
      λ x _ (sent, e).
        Returns-bind _ _
          (read_message-packet os' stream' healthy' codec type_result _ codec.parse_result fuel pkg
            [] s' (peer x.2) v some_bytes short no_over
            (joined x.2 ∙ e ∙ ap (λ t. t ++ packet pkg) empty ∙ sym (append-nil (packet pkg)))
            (enough' x.2))
          λ y _ r.
            Returns-ok _
              (sent, r.message_read ∙ answer-reply_msg codec wire rc msg apdmsg pkg texts made)
