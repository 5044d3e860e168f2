-- ===== src/Processor/Untouched.antt =====
-- The handlers of a client's submessages and the other clients (src/cpp/processor/Processor.cpp).
use micro_xrce_dds_agent.Common.{
  ℕ, ◌≡◌, refl, ap, ◌∙◌, Bool, true, false, Option, none, some, Option-cases, inl, inr, if_each,
}
use micro_xrce_dds_agent.Common.Map as Map
use micro_xrce_dds_agent.Common.Map.{octets_eq, octets_beq, find}
use micro_xrce_dds_agent.Cdr.{Cdr}
use micro_xrce_dds_agent.Message.Output.{Submessage}
use micro_xrce_dds_agent.Session.{Config}
use micro_xrce_dds_agent.Session.Output.{push_output_submessage, get_next_output_message}
use micro_xrce_dds_agent.Object.{Middleware}
use micro_xrce_dds_agent.Root.{ClientKey, get_client}
use micro_xrce_dds_agent.Processor.Types.{Codec, DeletePayload}
use micro_xrce_dds_agent.OutputStream.Types.{streamid_none}
use micro_xrce_dds_agent.Root.Lookup.{get_client-delete_client}
use micro_xrce_dds_agent.Processor.Requests.{
  Handling, send_all, answer_on, process_create_submessage, delete_own_client,
  process_delete_submessage, process_heartbeat_submessage, process_reset_submessage, finished,
  acknack_id,
}

-- What holds of a result, if there is one.
abbrev pub OnSome {ℓ} : {A : Type ℓ} → (A → Type 0) → Option A → Type 0
OnSome P none = Unit
OnSome P (some a) = P a

pub OnSome-elim :
    {A B : Type 0} (P : B → Type 0) (o : Option A) (f : A → Option B)
    → ((a : A) → OnSome P (f a))
    → OnSome P (elim o as (λ x. Option B) [ none ↦ none | some a ↦ f a ])
OnSome-elim P none f each = tt
OnSome-elim P (some a) f each = each a

-- The same for a step that may fail behind one that may.
pub OnSome-bind :
    {A B : Type 0} (Q : A → Type 0) (P : B → Type 0) (o : Option A) (f : A → Option B)
    → OnSome Q o
    → ((a : A) → Q a → OnSome P (f a))
    → OnSome P (elim o as (λ x. Option B) [ none ↦ none | some a ↦ f a ])
OnSome-bind Q P none f holds each = tt
OnSome-bind Q P (some a) f holds each = each a holds

-- The same for a step that takes place if there is something.
pub OnSome-unless :
    {A B : Type 0} (P : B → Type 0) (o : Option A) (b : B) (f : A → Option B)
    → P b
    → ((a : A) → OnSome P (f a))
    → OnSome P (elim o as (λ x. Option B) [ none ↦ some b | some a ↦ f a ])
OnSome-unless P none b f holds each = holds
OnSome-unless P (some a) b f holds each = each a

-- The same of a message that is taken out, or that there is none of.
pub taken-OnSome :
    {A B : Type 0} (P : B → Type 0) (found : Option (Option A)) (b : B) (f : A → B)
    → P b
    → ((a : A) → P (f a))
    → OnSome P (elim found as (λ x. Option B) [
      | none ↦ some b
      | some taken ↦ elim taken as (λ x. Option B) [ none ↦ none | some a ↦ some (f a) ]
    ])
taken-OnSome P none b f holds each = holds
taken-OnSome P (some none) b f holds each = tt
taken-OnSome P (some (some a)) b f holds each = each a

module _ (c : Cdr) {World EndPoint : Type 0} where
  -- The other clients of the agent are what they were, the proxy is of the same client, and the
  -- packet is from where it was.
  pub record Spares (h h' : Handling c World EndPoint) : Type 0 where
    pub others :
        (key : ClientKey)
        → octets_beq h.client.representation.client_key key ≡ false
        → get_client c key h'.agent.root ≡ get_client c key h.agent.root
    pub own : h'.client.representation ≡ h.client.representation
    pub source : h'.packet.source ≡ h.packet.source

  -- What a handler returns.
  abbrev pub Returned :
      Handling c World EndPoint → Option (Bool × Handling c World EndPoint) → Type 0
  Returned h o = OnSome (λ (r : Bool × Handling c World EndPoint). Spares h r.1) o

  -- A handler that leaves the clients of the agent alone.
  pub left_alone :
      (h h' : Handling c World EndPoint)
      → h'.agent.root ≡ h.agent.root
      → h'.client.representation ≡ h.client.representation
      → h'.packet.source ≡ h.packet.source
      → Spares h h'
  left_alone h h' root same there = record {
    others = λ key other. ap (get_client c key) root;
    own = same;
    source = there;
  }

  pub Spares-trans :
      (h h' h'' : Handling c World EndPoint) → Spares h h' → Spares h' h'' → Spares h h''
  Spares-trans h h' h'' first second = record {
    others = λ key other.
        second.others key (ap (λ r. octets_beq r.client_key key) first.own ∙ other)
        ∙ first.others key other;
    own = second.own ∙ first.own;
    source = second.source ∙ first.source;
  }

module _ (c : Cdr) {World EndPoint : Type 0} ⦃q : Map.Eq EndPoint⦄ (m : Middleware World)
    (codec : Codec c) (fuel : ℕ) (config : Config) where
  pub answer_on-Spares :
      (stream_id id : ℕ) (submessage : Submessage) (h : Handling c World EndPoint)
      → OnSome (Spares c h) (answer_on c m codec fuel config stream_id id submessage h)
  unfolding answer_on
  answer_on-Spares stream_id id submessage h =
      OnSome-elim (Spares c h)
        (push_output_submessage c fuel config stream_id id submessage h.client.session) _
        (λ r.
          OnSome-elim (Spares c h) (send_all c fuel h.packet.source stream_id r.1 h.agent.sent) _
            (λ left. left_alone c h _ refl refl refl))

  pub OnSome-trans :
      (h h' : Handling c World EndPoint) (o : Option (Handling c World EndPoint))
      → Spares c h h'
      → OnSome (Spares c h') o
      → OnSome (Spares c h) o
  OnSome-trans h h' none before after = tt
  OnSome-trans h h' (some left) before after = Spares-trans c h h' left before after

  finished-Spares :
      (h h' : Handling c World EndPoint) (rv : Bool) (o : Option (Handling c World EndPoint))
      → Spares c h h'
      → OnSome (Spares c h') o
      → Returned c h (finished c m codec fuel config rv o)
  finished-Spares h h' rv none before after = tt
  finished-Spares h h' rv (some left) before after = Spares-trans c h h' left before after

  pub process_create_submessage-Spares :
      (h : Handling c World EndPoint)
      → Returned c h (process_create_submessage c m codec fuel config h)
  unfolding process_create_submessage
  process_create_submessage-Spares h = elim (Option-cases (codec.get_create h.packet.message).0) [
    | inl unread ↦ rw (unread, process_create_submessage) (left_alone c h _ refl refl refl)
    | inr (p, there) ↦
        rw (there, process_create_submessage)
          (finished-Spares h _ true _ (left_alone c h _ refl refl refl) (answer_on-Spares _ _ _ _))
  ]

  delete_own_client-Spares :
      (p : DeletePayload) (h : Handling c World EndPoint)
      → OnSome (Spares c h) (delete_own_client c m codec fuel config p h)
  unfolding delete_own_client
  delete_own_client-Spares p h =
      OnSome-trans h _ _
        (record {
          others = λ key other.
              (get_client-delete_client c h.client.representation.client_key key h.agent.root).0
              ∙ rw other refl;
          own = refl;
          source = refl;
        })
        (answer_on-Spares _ _ _ _)

  pub process_delete_submessage-Spares :
      (h : Handling c World EndPoint)
      → Returned c h (process_delete_submessage c m codec fuel config h)
  unfolding process_delete_submessage
  process_delete_submessage-Spares h = elim (Option-cases (codec.get_delete h.packet.message).0) [
    | inl unread ↦ rw (unread, process_delete_submessage) (left_alone c h _ refl refl refl)
    | inr (p, there) ↦
        rw (there, process_delete_submessage)
          (if_each (Returned c h) _ _ _
            (finished-Spares h _ true _ (left_alone c h _ refl refl refl)
              (delete_own_client-Spares p _))
            (finished-Spares h _ true _ (left_alone c h _ refl refl refl)
              (answer_on-Spares _ _ _ _)))
  ]

  pub process_heartbeat_submessage-Spares :
      (h : Handling c World EndPoint)
      → Returned c h (process_heartbeat_submessage c m codec fuel config h)
  unfolding process_heartbeat_submessage
  process_heartbeat_submessage-Spares h =
      elim (Option-cases (codec.get_heartbeat h.packet.message).0) [
        | inl unread ↦ rw (unread, process_heartbeat_submessage) (left_alone c h _ refl refl refl)
        | inr (p, there) ↦
            rw (there, process_heartbeat_submessage)
              (OnSome-elim _ (push_output_submessage c fuel config streamid_none acknack_id _ _) _
                (λ r.
                  taken-OnSome _ (get_next_output_message c streamid_none r.1).0 _ _
                    (left_alone c h _ refl refl refl) (λ message. left_alone c h _ refl refl refl)))
      ]

  pub process_reset_submessage-Spares :
      (h : Handling c World EndPoint)
      → Returned c h (process_reset_submessage c m codec fuel config h)
  unfolding process_reset_submessage
  process_reset_submessage-Spares h = left_alone c h _ refl refl refl
