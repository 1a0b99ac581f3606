-- ===== src/CommandQueue/Sweep.antt =====
-- The walk with removal against filtering, counting and collecting.
use fast.Prelude.{
  Bool, Bool-cases, Bytes, List, [], ap, ap₂, append_assoc, arith, codes, false, true, Option,
  append-nil, if◌then◌else◌, inl, inr, length, none, not, refl, some, sym, ℕ, ◌++◌, ◌==◌, ◌∙◌, ◌∷◌,
  ◌≡◌,
}
use fast.Time.{TimeStr}
use fast.CommandQueue.{
  CommandQueue, CommandSent, Event, command_handler_message, command_queue_check,
  connection_message, free_command, free_string, handler_message, report, sweep, timeout_call,
}

module _ {ℓ} {A : Type ℓ} where
  abbrev pub keep : (A → Bool) → List A → List A
  keep p [] = []
  keep p (x ∷ xs) = if p x then x ∷ keep p xs else keep p xs

  abbrev pub gather {κ} : {B : Type κ} → (A → List B) → List A → List B
  gather f [] = []
  gather f (x ∷ xs) = f x ++ gather f xs

  pub gather-append {κ} :
      {B : Type κ} (f : A → List B) (xs ys : List A)
      → gather f (xs ++ ys) ≡ gather f xs ++ gather f ys
  gather-append f [] ys = refl
  gather-append f (x ∷ xs) ys =
      ap (λ zs. f x ++ zs) (gather-append f xs ys)
      ∙ sym (append_assoc (f x) (gather f xs) (gather f ys))

-- the texts that are sent to a connection, those given to the handler, and the names that the
-- timeout callback is called with
abbrev pub sent_to : ℕ → Event → List Bytes
sent_to conn (connection_message c text) = if c == conn then text ∷ [] else []
sent_to conn (handler_message text) = []
sent_to conn (timeout_call name) = []
sent_to conn (free_string s) = []

abbrev pub handled : Event → List Bytes
handled (connection_message c text) = []
handled (handler_message text) = text ∷ []
handled (timeout_call name) = []
handled (free_string s) = []

abbrev pub called : Event → List Bytes
called (connection_message c text) = []
called (handler_message text) = []
called (timeout_call name) = name ∷ []
called (free_string s) = []

abbrev pub freed : Event → List Bytes
freed (connection_message c text) = []
freed (handler_message text) = []
freed (timeout_call name) = []
freed (free_string s) = s ∷ []

-- What a message about a command to `o` or to the handler is, by kind.
abbrev message_to : Bool → Bytes → Option ℕ → List Event
message_to b t o = elim o [
  | none ↦ if b then handler_message t ∷ [] else []
  | some own ↦ connection_message own t ∷ []
]

sent-message :
    (conn : ℕ) (b : Bool) (t : Bytes) (o : Option ℕ)
    → gather (sent_to conn) (message_to b t o)
      ≡ (elim o [ none ↦ [] | some own ↦ if own == conn then t ∷ [] else [] ])
sent-message conn true t none = refl
sent-message conn false t none = refl
sent-message conn b t (some own) = append-nil _

handled-message :
    (b : Bool) (t : Bytes) (o : Option ℕ)
    → gather handled (message_to b t o)
      ≡ (elim o [ none ↦ if b then t ∷ [] else [] | some own ↦ [] ])
handled-message true t none = refl
handled-message false t none = refl
handled-message b t (some own) = refl

called-message : (b : Bool) (t : Bytes) (o : Option ℕ) → gather called (message_to b t o) ≡ []
called-message true t none = refl
called-message false t none = refl
called-message b t (some own) = refl

pub freed-message : (b : Bool) (t : Bytes) (o : Option ℕ) → gather freed (message_to b t o) ≡ []
freed-message true t none = refl
freed-message false t none = refl
freed-message b t (some own) = refl

-- What a call and two strings to be freed are, by kind.
abbrev call_if : Bool → Bytes → List Event
call_if b name = if b then timeout_call name ∷ [] else []

sent-call : (conn : ℕ) (b : Bool) (name : Bytes) → gather (sent_to conn) (call_if b name) ≡ []
sent-call conn true name = refl
sent-call conn false name = refl

handled-call : (b : Bool) (name : Bytes) → gather handled (call_if b name) ≡ []
handled-call true name = refl
handled-call false name = refl

called-call :
    (b : Bool) (name : Bytes) → gather called (call_if b name) ≡ (if b then name ∷ [] else [])
called-call true name = refl
called-call false name = refl

pub freed-call : (b : Bool) (name : Bytes) → gather freed (call_if b name) ≡ []
freed-call true name = refl
freed-call false name = refl

abbrev prefix_freed : Option Bytes → List Event
prefix_freed o = elim o [ none ↦ [] | some p ↦ free_string p ∷ [] ]

sent-prefix : (conn : ℕ) (o : Option Bytes) → gather (sent_to conn) (prefix_freed o) ≡ []
sent-prefix conn none = refl
sent-prefix conn (some p) = refl

handled-prefix : (o : Option Bytes) → gather handled (prefix_freed o) ≡ []
handled-prefix none = refl
handled-prefix (some p) = refl

called-prefix : (o : Option Bytes) → gather called (prefix_freed o) ≡ []
called-prefix none = refl
called-prefix (some p) = refl

pub freed-prefix :
    (o : Option Bytes) → gather freed (prefix_freed o) ≡ (elim o [ none ↦ [] | some p ↦ p ∷ [] ])
freed-prefix none = refl
freed-prefix (some p) = refl

pub gather-three {κ} :
    {B : Type κ} (f : Event → List B) (a b c : List Event) {x y z : List B}
    → gather f a ≡ x
    → gather f b ≡ y
    → gather f c ≡ z
    → gather f (a ++ (b ++ c)) ≡ x ++ (y ++ z)
gather-three f a b c p q r =
    gather-append f a (b ++ c)
    ∙ ap₂ (λ u v. u ++ v) p (gather-append f b c ∙ ap₂ (λ u v. u ++ v) q r)

module _ {Seconds : Type 0} where
  -- What a walk leaves, counts and does: the others stay in their order, and each command that it
  -- picks is counted once and acted on once, in order.
  pub sweep-keep :
      (picks : CommandSent Seconds → Bool) (act : CommandSent Seconds → List Event)
      (cs : List (CommandSent Seconds))
      → sweep picks act cs
        ≡ (keep (λ c. not (picks c)) cs, length (keep picks cs), gather act (keep picks cs))
  unfolding sweep
  sweep-keep picks act [] = refl
  sweep-keep picks act (c ∷ cs) = ground (arith, sweep-keep picks act cs)

  -- What a walk does of one kind is what its action does of that kind, for each command.
  pub gather-sweep {κ} :
      {B : Type κ} (kind : Event → List B) (picks : CommandSent Seconds → Bool)
      (act : CommandSent Seconds → List Event) (of_kind : CommandSent Seconds → List B)
      → ((c : CommandSent Seconds) → gather kind (act c) ≡ of_kind c)
      → (cs : List (CommandSent Seconds))
      → gather kind (sweep picks act cs).2 ≡ gather of_kind (keep picks cs)
  unfolding sweep
  gather-sweep kind picks act of_kind h [] = refl
  gather-sweep kind picks act of_kind h (c ∷ cs) = elim (Bool-cases (picks c)) [
    | inl e ↦ rw e (
        gather-append kind (act c) (sweep picks act cs).2
        ∙ ap₂ (λ xs ys. xs ++ ys) (h c) (gather-sweep kind picks act of_kind h cs))
    | inr e ↦ rw e (gather-sweep kind picks act of_kind h cs)
  ]

  abbrev pub timeout_text : CommandSent Seconds → Bytes
  timeout_text c =
      (elim c.prefix [ none ↦ c.name | some p ↦ p ++ (codes "___" ++ c.name) ]) ++ codes "_timeout"

  -- A check takes out the commands whose timeout has passed, counts them, and leaves the others as
  -- they are. Of the commands that it takes out, in the order of their issue, each connection is sent
  -- one text for each of its own, made of the prefix, the name and "_timeout"; the handler, if it is
  -- set, is given such a text for each that has no connection; and the timeout callback, if it is
  -- set, is called once with the name of each.
  pub check-keep :
      (expired : TimeStr → Seconds → TimeStr → Bool) (cq : CommandQueue Seconds) (now : TimeStr)
      (conn : ℕ)
      → let late : CommandSent Seconds → Bool = λ c. expired c.time c.timeout now in
        let (cq', removed, events) = command_queue_check expired cq now in
        (cq' ≡ record cq { commands_sent = keep (λ c. not (late c)) cq.commands_sent })
        × (removed ≡ length (keep late cq.commands_sent))
        × (gather (sent_to conn) events
            ≡ gather
                (λ c. elim c.connection [
                  | none ↦ []
                  | some own ↦ if own == conn then timeout_text c ∷ [] else []
                ])
                (keep late cq.commands_sent))
        × (gather handled events
            ≡ gather
                (λ c. elim c.connection [
                  | none ↦ if cq.has_handler then timeout_text c ∷ [] else []
                  | some own ↦ []
                ])
                (keep late cq.commands_sent))
        × (gather called events
            ≡ gather
                (λ c. if cq.has_timeout_callback then c.name ∷ [] else [])
                (keep late cq.commands_sent))
  unfolding command_queue_check report command_handler_message
  check-keep expired cq now conn =
      let late : CommandSent Seconds → Bool = λ c. expired c.time c.timeout now in
      let cs = cq.commands_sent in
      (
        rw sweep-keep refl,
        rw sweep-keep refl,
        gather-sweep (sent_to conn) late _ _
            (λ c.
              gather-three (sent_to conn) (message_to cq.has_handler (timeout_text c) c.connection)
                (call_if cq.has_timeout_callback c.name) (free_command c)
                (sent-message conn cq.has_handler (timeout_text c) c.connection)
                (sent-call conn cq.has_timeout_callback c.name) (sent-prefix conn c.prefix)
              ∙ append-nil _)
            cs,
        gather-sweep handled late _ _
            (λ c.
              gather-three handled (message_to cq.has_handler (timeout_text c) c.connection)
                (call_if cq.has_timeout_callback c.name) (free_command c)
                (handled-message cq.has_handler (timeout_text c) c.connection)
                (handled-call cq.has_timeout_callback c.name) (handled-prefix c.prefix)
              ∙ append-nil _)
            cs,
        gather-sweep called late _ _
            (λ c.
              gather-three called (message_to cq.has_handler (timeout_text c) c.connection)
                (call_if cq.has_timeout_callback c.name) (free_command c)
                (called-message cq.has_handler (timeout_text c) c.connection)
                (called-call cq.has_timeout_callback c.name) (called-prefix c.prefix)
              ∙ append-nil _)
            cs,
      )
