-- ===== src/Sockets/Channels/Links.antt =====
-- The open channels of a socket and the open slots of the event handler that name it belong to each
-- other.
use belt_pp.Base.{
  ℕ, ◌≡◌, ◌≢◌, refl, sym, ap, subst, ◌∙◌, Option, none, some, Bool, true, false, if◌then◌else◌,
  ℕ_discrete,
}
use belt_pp.Sockets.Slots.Drain.{open_of}
use belt_pp.Sockets.Slots.Keeps.{Keeps, write}
use belt_pp.Sockets.Slots.Write.{write_here, write_there}
use belt_pp.Sockets.Events.{EventSlot, blank_slot, slot_closed}
use belt_pp.Sockets.Channels.{Channel, Sockets, blank_channel, channel_closed}

-- The slot of a socket's channel.
abbrev pub slot_for : ℕ → ℕ → EventSlot
slot_for self id = record { closed = false; item_id = id; item = self }

module _ {S : Type 0} (self : ℕ) where
  -- `F` has the open channels and `G` the open slots.
  pub record Links (F : ℕ → Option (Channel S)) (G : ℕ → Option EventSlot) : Type 0 where
    pub onward : (i : ℕ) (c : Channel S) → F i ≡ some c → G c.eh_id ≡ some (slot_for self i)
    pub back :
        (j : ℕ) (slot : EventSlot)
        → G j ≡ some slot
        → slot.item ≡ self
        → (c : Channel S) × (F slot.item_id ≡ some c) × (c.eh_id ≡ j)

  pub Links-ext :
      {F F' : ℕ → Option (Channel S)} {G G' : ℕ → Option EventSlot}
      → ((i : ℕ) → F' i ≡ F i)
      → ((j : ℕ) → G' j ≡ G j)
      → Links F G
      → Links F' G'
  Links-ext same_f same_g l = record {
    onward = λ i c e. same_g c.eh_id ∙ l.onward i c (sym (same_f i) ∙ e);
    back = λ j slot e mine.
        let (c, there, eh) = l.back j slot (sym (same_g j) ∙ e) mine in
        (c, same_f slot.item_id ∙ there, eh);
  }

  pub Links-drop :
      (F : ℕ → Option (Channel S)) (G : ℕ → Option EventSlot) (id : ℕ) (c : Channel S)
      → Links F G
      → F id ≡ some c
      → Links (write F id none) (write G c.eh_id none)
  Links-drop F G id c l there = record {
    onward = λ i d e. elim (ℕ_discrete i id) [
      | yes same ↦ absurd (
          let gone = subst (λ k. write F id none k ≡ some d) same e in
          let w = write_here F id none in cc)
      | no ne ↦
          let e' = sym (write_there F id none i ne) ∙ e in
          let slot = l.onward i d e' in
          let mine = l.onward id c there in
          write_there G c.eh_id none d.eh_id (λ same.
            let both = sym slot ∙ ap G same ∙ mine in
            ne (ap (λ o. elim o [ some s ↦ s.item_id | none ↦ 0 ]) both))
          ∙ slot
    ];
    back = λ j slot e own. elim (ℕ_discrete j c.eh_id) [
      | yes same ↦ absurd (
          let gone = subst (λ k. write G c.eh_id none k ≡ some slot) same e in
          let w = write_here G c.eh_id none in cc)
      | no ne ↦
          let e' = sym (write_there G c.eh_id none j ne) ∙ e in
          let (d, found, eh) = l.back j slot e' own in
          (
            d,
            write_there F id none slot.item_id (λ same.
                  let both : some d ≡ some c = sym found ∙ ap F same ∙ there in
                  ne (sym eh ∙ ap (λ o. elim o [ some x ↦ x.eh_id | none ↦ 0 ]) both))
                ∙ found,
            eh,
          )
    ];
  }

  pub Links-join :
      (F : ℕ → Option (Channel S)) (G : ℕ → Option EventSlot) (id : ℕ) (c : Channel S)
      → Links F G
      → F id ≡ none
      → G c.eh_id ≡ none
      → Links (write F id (some c)) (write G c.eh_id (some (slot_for self id)))
  Links-join F G id c l free free' = record {
    onward = λ i d e. elim (ℕ_discrete i id) [
      | yes same ↦
          let e' : some c ≡ some d =
            sym (write_here F id (some c)) ∙ subst (λ k. write F id (some c) k ≡ some d) same e in
          let eh : c.eh_id ≡ d.eh_id = ap (λ o. elim o [ some x ↦ x.eh_id | none ↦ 0 ]) e' in
          ap (write G c.eh_id (some (slot_for self id))) (sym eh)
          ∙ write_here G c.eh_id (some (slot_for self id))
          ∙ ap (λ k. some (slot_for self k)) (sym same)
      | no ne ↦
          let slot = l.onward i d (sym (write_there F id (some c) i ne) ∙ e) in
          write_there G c.eh_id (some (slot_for self id)) d.eh_id
            (λ same. let both = sym slot ∙ ap G same ∙ free' in cc)
          ∙ slot
    ];
    back = λ j slot e own. elim (ℕ_discrete j c.eh_id) [
      | yes same ↦
          let e' : some (slot_for self id) ≡ some slot =
            sym (write_here G c.eh_id (some (slot_for self id)))
            ∙ subst (λ k. write G c.eh_id (some (slot_for self id)) k ≡ some slot) same e in
          let item : id ≡ slot.item_id = ap (λ o. elim o [ some x ↦ x.item_id | none ↦ 0 ]) e' in
          (c, ap (write F id (some c)) (sym item) ∙ write_here F id (some c), sym same)
      | no ne ↦
          let (d, found, eh) =
            l.back j slot (sym (write_there G c.eh_id (some (slot_for self id)) j ne) ∙ e) own in
          (
            d,
            write_there F id (some c) slot.item_id
                  (λ same. let both = sym found ∙ ap F same ∙ free in cc)
                ∙ found,
            eh,
          )
    ];
  }

  -- Another value of a channel that keeps its slot.
  pub Links-update :
      (F : ℕ → Option (Channel S)) (G : ℕ → Option EventSlot) (id : ℕ) (c d : Channel S)
      → Links F G
      → F id ≡ some c
      → d.eh_id ≡ c.eh_id
      → Links (write F id (some d)) G
  Links-update F G id c d l there kept = record {
    onward = λ i x e. elim (ℕ_discrete i id) [
      | yes same ↦
          let e' : some d ≡ some x =
            sym (write_here F id (some d)) ∙ subst (λ k. write F id (some d) k ≡ some x) same e in
          let eh : d.eh_id ≡ x.eh_id = ap (λ o. elim o [ some y ↦ y.eh_id | none ↦ 0 ]) e' in
          ap G (sym eh ∙ kept) ∙ l.onward id c there ∙ ap (λ k. some (slot_for self k)) (sym same)
      | no ne ↦ l.onward i x (sym (write_there F id (some d) i ne) ∙ e)
    ];
    back = λ j slot e own.
        let (x, found, eh) = l.back j slot e own in
        elim (ℕ_discrete slot.item_id id) [
          | yes same ↦
              let both : some x ≡ some c = sym found ∙ ap F same ∙ there in
              let eh' : x.eh_id ≡ c.eh_id = ap (λ o. elim o [ some y ↦ y.eh_id | none ↦ 0 ]) both in
              (d, ap (write F id (some d)) same ∙ write_here F id (some d), kept ∙ sym eh' ∙ eh)
          | no ne ↦ (x, write_there F id (some d) slot.item_id ne ∙ found, eh)
        ];
  }

  -- Slots of other items come and go.
  pub Links-other :
      (F : ℕ → Option (Channel S)) (G : ℕ → Option EventSlot) (j : ℕ) (slot : EventSlot)
      → Links F G
      → G j ≡ none
      → slot.item ≢ self
      → Links F (write G j (some slot))
  Links-other F G j slot l free other = record {
    onward = λ i c e.
        let there = l.onward i c e in
        write_there G j (some slot) c.eh_id (λ same. let both = sym there ∙ ap G same ∙ free in cc)
        ∙ there;
    back = λ k t e own. elim (ℕ_discrete k j) [
      | yes same ↦
          let e' : some slot ≡ some t =
            sym (write_here G j (some slot))
            ∙ subst (λ x. write G j (some slot) x ≡ some t) same e in
          absurd (other (ap (λ o. elim o [ some x ↦ x.item | none ↦ 0 ]) e' ∙ own))
      | no ne ↦ l.back k t (sym (write_there G j (some slot) k ne) ∙ e) own
    ];
  }

  pub Links-other_gone :
      (F : ℕ → Option (Channel S)) (G : ℕ → Option EventSlot) (j : ℕ) (slot : EventSlot)
      → Links F G
      → G j ≡ some slot
      → slot.item ≢ self
      → Links F (write G j none)
  Links-other_gone F G j slot l there other = record {
    onward = λ i c e.
        let mine = l.onward i c e in
        write_there G j none c.eh_id (λ same.
          let both : some (slot_for self i) ≡ some slot = sym mine ∙ ap G same ∙ there in
          other (sym (ap (λ o. elim o [ some x ↦ x.item | none ↦ 0 ]) both)))
        ∙ mine;
    back = λ k t e own. elim (ℕ_discrete k j) [
      | yes same ↦ absurd (
          let gone = subst (λ x. write G j none x ≡ some t) same e in
          let w = write_here G j none in cc)
      | no ne ↦ l.back k t (sym (write_there G j none k ne) ∙ e) own
    ];
  }

-- What a socket and the event handler keep: the next ids, the open channels and the open slots.
pub record State {K S : Type 0} (no_session : S) (self : ℕ) (s : Sockets K S) (n m : ℕ)
    (F : ℕ → Option (Channel S)) (G : ℕ → Option EventSlot) : Type 0 where
  pub channels : ℕ → Option (Channel S)
  pub slots : ℕ → Option EventSlot
  pub keeps_channels : Keeps (blank_channel no_session) s.channels n channels
  pub keeps_slots : Keeps blank_slot s.events.ids m slots
  pub open_channels : (i : ℕ) → open_of channel_closed (channels i) ≡ F i
  pub open_slots : (j : ℕ) → open_of slot_closed (slots j) ≡ G j
  pub links : Links self F G

-- An open element is there.
pub open_some {ℓ} :
    {A : Type ℓ} (closed : A → Bool) (o : Option A) (a : A)
    → open_of closed o ≡ some a
    → (o ≡ some a) × (closed a ≡ false)
open_some closed none a e = absurd (cc)
open_some {A = A} closed (some b) a e = go (closed b) refl e
  where
    go :
        (t : Bool)
        → closed b ≡ t
        → (if t then none else some b) ≡ some a
        → (some b ≡ some a) × (closed a ≡ false)
    go true shut e = absurd (cc)
    go false open_now e =
        let same : b ≡ a =
          ap (λ (o : Option A). let r : A = elim o [ some x ↦ x | none ↦ a ] in r) e in
        (e, subst (λ x. closed x ≡ false) same open_now)
