-- ===== src/Evd/Table.antt =====
-- The dispatcher's table and its selector name the same descriptors, each with the events of its channel.
use yamq.Prelude.{
  ℕ, ◌≡◌, ◌≢◌, refl, sym, subst, ap, ◌∙◌, ◌⊎◌, inl, inr, true, false, none, some, ◌==◌, ==_iff,
  Bool-cases, find, put_key, find-put_key, find-put_key_ne,
}
use yamq.Selector.{interest, Selector}
use yamq.Evd.{Channel, Dispatcher, insert_channel, register_channel, update_channel, update}

module _ {S : Type 0} (sel : Selector S) where
  -- A descriptor is watched just where it has a channel.
  pub record Agrees (d : Dispatcher sel) : Type 0 where
    pub valid : sel.Valid d.selector
    pub unwatched : (fd : ℕ) → find fd d.channels ≡ none → sel.watched d.selector fd ≡ none
    pub watched : (fd : ℕ) → find fd d.channels ≢ none → sel.watched d.selector fd ≢ none

  -- The channel is not registered yet, or it is, under its pointer, with its events.
  pub record Attached (d : Dispatcher sel) (ptr : ℕ) (c : Channel) : Type 0 where
    pub on : c.attached ≡ true
    pub entry : find c.fd d.channels ≡ some ptr
    pub asked : sel.watched d.selector c.fd ≡ some (interest c.events)

  -- What stands for the other descriptors.
  pub record Others (d d' : Dispatcher sel) (fd : ℕ) : Type 0 where
    pub entries : (i : ℕ) → i ≢ fd → find i d'.channels ≡ find i d.channels
    pub asked : (i : ℕ) → i ≢ fd → sel.watched d'.selector i ≡ sel.watched d.selector i

  -- A new entry for `fd`, or none, keeps the table and the selector in agreement.
  Agrees-Others :
      (d d' : Dispatcher sel) (fd : ℕ)
      → Agrees d
      → sel.Valid d'.selector
      → Others d d' fd
      → (find fd d'.channels ≡ none → sel.watched d'.selector fd ≡ none)
      → (find fd d'.channels ≢ none → sel.watched d'.selector fd ≢ none)
      → Agrees d'
  Agrees-Others d d' fd a v o empty full = record {
    valid = v;
    unwatched = λ i h. elim (Bool-cases (i == fd)) [
      | inl e ↦
          let e' = (==_iff i fd).0 e in
          subst (λ k. sel.watched d'.selector k ≡ none) (sym e')
            (empty (subst (λ k. find k d'.channels ≡ none) e' h))
      | inr e ↦
          let ne : i ≢ fd = λ b. cc ((==_iff i fd).1 b) in
          o.asked i ne ∙ a.unwatched i (sym (o.entries i ne) ∙ h)
    ];
    watched = λ i h w. elim (Bool-cases (i == fd)) [
      | inl e ↦
          let e' = (==_iff i fd).0 e in
          full (λ k. h (subst (λ j. find j d'.channels ≡ none) (sym e') k))
            (subst (λ k. sel.watched d'.selector k ≡ none) e' w)
      | inr e ↦
          let ne : i ≢ fd = λ b. cc ((==_iff i fd).1 b) in
          a.watched i (λ k. h (o.entries i ne ∙ k)) (sym (o.asked i ne) ∙ w)
    ];
  }

  -- The first `Update` of a channel registers it.
  pub update-new :
      (d : Dispatcher sel) (ptr : ℕ) (c : Channel)
      → Agrees d
      → c.attached ≡ false
      → find c.fd d.channels ≡ none
      → (d' : Dispatcher sel) × (update sel d ptr c ≡ some (record c { attached = true }, d'))
        × Agrees d'
        × Attached d' ptr (record c { attached = true })
        × Others d d' c.fd
  unfolding update register_channel
  update-new d ptr c a off new =
      let (s', e, v', now, kept) =
        sel.add_watched d.selector c.fd c.events a.valid (a.unwatched c.fd new) in
      let d' : Dispatcher sel = record { selector = s'; channels = put_key c.fd ptr d.channels } in
      let o : Others d d' c.fd = record {
        entries = λ i ne. find-put_key_ne ptr d.channels ne;
        asked = kept;
      } in
      let here = find-put_key c.fd ptr d.channels in
      (
        d',
        rw (off, e, insert_channel, new),
        Agrees-Others d d' c.fd a v' o (λ h. cc) (λ h w. cc),
        record { on = refl; entry = here; asked = now },
        o,
      )

  -- A later one hands on its events.
  pub update-attached :
      (d : Dispatcher sel) (ptr : ℕ) (c : Channel)
      → Agrees d
      → c.attached ≡ true
      → find c.fd d.channels ≡ some ptr
      → (d' : Dispatcher sel) × (update sel d ptr c ≡ some (c, d'))
        × Agrees d'
        × Attached d' ptr c
        × Others d d' c.fd
  unfolding update update_channel
  update-attached d ptr c a on here =
      let (s', e, v', now, kept) =
        sel.update_watched d.selector c.fd c.events a.valid (a.watched c.fd (λ h. cc)) in
      let d' : Dispatcher sel = record d { selector = s' } in
      let o : Others d d' c.fd = record { entries = λ i ne. refl; asked = kept } in
      (
        d',
        rw (on, e),
        Agrees-Others d d' c.fd a v' o (λ h. cc) (λ h w. cc),
        record { on = on; entry = here; asked = now },
        o,
      )

  -- What `Update` is for: a channel that is new, or one that is registered under its pointer.
  abbrev pub Updatable : Dispatcher sel → ℕ → Channel → Type 0
  Updatable d ptr c =
      ((c.attached ≡ false) × (find c.fd d.channels ≡ none))
      ⊎ ((c.attached ≡ true) × (find c.fd d.channels ≡ some ptr))

  -- In a dispatcher where just the descriptors with a channel are watched, Channel::Update of a new
  -- channel, or of one that is registered under its pointer, succeeds, keeps that, leaves the
  -- channel registered and watched for its events, and leaves the other descriptors as they were.
  pub update-Agrees :
      (d : Dispatcher sel) (ptr : ℕ) (c : Channel)
      → Agrees d
      → Updatable d ptr c
      → (d' : Dispatcher sel) × (update sel d ptr c ≡ some (record c { attached = true }, d'))
        × Agrees d'
        × Attached d' ptr (record c { attached = true })
        × Others d d' c.fd
  update-Agrees d ptr c a (inl (off, new)) = update-new d ptr c a off new
  update-Agrees d ptr c a (inr (on, here)) =
      let (d', e, a', at, o) = update-attached d ptr c a on here in
      let same : c ≡ record c { attached = true } = ap (λ b. record c { attached = b }) on in
      (
        d',
        subst (λ k. update sel d ptr c ≡ some (k, d')) same e,
        a',
        subst (Attached d' ptr) same at,
        o,
      )
