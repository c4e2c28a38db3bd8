-- ===== src/Qdcadm/Printing.antt =====
-- That the answer at hand is printed without an access outside the packet's array.
use o2k.Prelude.{
  ℕ, ◌<◌, ◌==◌, ◌==ℤ◌, List, Option, none, some, Option-cases, inl, inr, str_case_eq, codes,
}
use o2k.Outcome.{Returns, Returns-ok, Returns-if, Returns-bind}
use o2k.Socket.{ErrText}
use o2k.AdminMsg.{MsgHeaderWrap, MsgResult, Codec, header_or_default, type_result}
use o2k.MsgRw.{MsgRw, msgbuf, get_packet}
use o2k.MsgRw.Buffer.{IsWellFormed}
use o2k.MsgRw.Messages.{parsed, parse_packet, parse_result, rc_ok}
use o2k.MsgRw.Termination.{c_str-get_elem?, parse_msgbuf-Returns}
use o2k.Qdcadm.{show_body, show_more, show_result, show_message}

-- A packet is at hand.
abbrev pub IsAtHand : MsgRw → Type 0
IsAtHand s = IsWellFormed s × (0 < s.lenmsg)

err-IsAtHand : (s : MsgRw) (t : ErrText) → IsAtHand s → IsAtHand (record s { errbuf = t })
err-IsAtHand s t (v, e) =
    (record { buf_size = v.buf_size; heap_size = v.heap_size; terminated = v.terminated }, e)

parsed-IsAtHand {ℓ} : {A : Type ℓ} (s : MsgRw) (m : Option A) → IsAtHand s → IsAtHand (parsed s m).1
parsed-IsAtHand s none h = err-IsAtHand s _ h
parsed-IsAtHand s (some m) h = h

pub parse_packet-Returns {ℓ} :
    {A : Type ℓ} (parse : List ℕ → Option A) (s : MsgRw)
    → IsAtHand s
    → Returns (λ end. IsAtHand end.1) (parse_packet parse s)
unfolding parse_packet
parse_packet-Returns parse s h =
    Returns-if (s.lenmsg == 0) _ _ (λ _. Returns-ok _ h)
      λ _.
        Returns-bind _ _ (parse_msgbuf-Returns parse s h.0 h.1)
          λ m _ _. Returns-ok _ (parsed-IsAtHand s m h)

module _ (codec : Codec) (cmd : List ℕ) where
  show_body-Returns :
      (s : MsgRw) (packet : Option (List ℕ))
      → IsAtHand s
      → Returns {0, 0} (λ _. Unit) (show_body codec s packet)
  unfolding show_body
  show_body-Returns s none h = Returns-ok _ tt
  show_body-Returns s (some msg) h =
      let (text, e) = c_str-get_elem? (msgbuf s) s.lenmsg (h.0.terminated h.1) in
      elim (Option-cases (codec.parse_metrics msg)) [
        | inr (m, made) ↦ rw (made, show_body) (Returns-ok _ tt)
        | inl unmade ↦ rw (unmade, show_body) (rw (e, show_body) (Returns-ok _ tt))
      ]

  show_more-Returns : (s : MsgRw) → IsAtHand s → Returns {0, 0} (λ _. Unit) (show_more codec cmd s)
  unfolding show_more
  show_more-Returns s h =
      Returns-if (str_case_eq cmd (codes "get_metrics")) _ _
        (λ _. show_body-Returns s (get_packet s) h) (λ _. Returns-ok _ tt)

  show_result-Returns :
      (s : MsgRw) (r : Option MsgResult)
      → IsAtHand s
      → Returns {0, 0} (λ _. Unit) (show_result codec cmd s r)
  unfolding show_result
  show_result-Returns s none h = Returns-ok _ tt
  show_result-Returns s (some r) h =
      Returns-if (str_case_eq r.rc rc_ok) _ _
        (λ _. Returns-bind _ _ (show_more-Returns s h) λ more _ _. Returns-ok _ tt)
        (λ _. Returns-ok _ tt)

  pub show_message-Returns :
      (s : MsgRw) (hdr : Option MsgHeaderWrap)
      → IsAtHand s
      → Returns {0, 0} (λ _. Unit) (show_message codec cmd s hdr)
  unfolding show_message parse_result
  show_message-Returns s none h = Returns-ok _ tt
  show_message-Returns s (some hdr) h =
      Returns-if ((header_or_default hdr.msg_header).msg_type ==ℤ type_result) _ _
        (λ _.
          Returns-bind _ _ (parse_packet-Returns codec.parse_result s h)
            λ x _ h'. show_result-Returns x.1 x.0 h')
        (λ _. show_more-Returns s h)
