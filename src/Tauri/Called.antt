-- ===== src/Tauri/Called.antt =====
-- What the callbacks of `TaskBuilder` of src/tauri.rs are called with by `forward_events`.
use execra.Base.{
  arith, true, Option, none, some, List, [], ◌∷◌, ◌++◌, append_assoc, append-nil, ◌≡◌, refl, sym,
  ap, ◌∙◌, if◌then◌else◌,
}
use execra.Command.{Command, CommandSpec}
use execra.Event.{Event, Stream}
use execra.Finding.{SystemTime}
use execra.Job.{JobId}
use execra.Base.{Text}
use execra.Outcome.{Outcome}
use execra.Driver.Between.{are_between}
use execra.Tauri.Creep.{Rounding}
use execra.Tauri.Forward.{
  CreepFn, Turn, next, timer, deliver, deliver_all, forward_events, is_finalized, observed,
  straight,
}
use execra.Tauri.Merged.{IsMerged, none_left, real, synthetic, forward-IsMerged}
use execra.Tauri.Task.{
  task, on_created, on_output, on_finalized, observe, if_created, if_output, if_finalized,
}

-- The events that the stream gives before it closes.
abbrev pub heard : List Turn → List Event
heard [] = []
heard (timer at ∷ ts) = heard ts
heard (next none ∷ ts) = []
heard (next (some e) ∷ ts) = e ∷ heard ts

abbrev first_part : List Event → List Event
first_part [] = []
first_part (e ∷ es) = let rest = first_part es in if is_finalized e then e ∷ [] else e ∷ rest

straight-heard : (ts : List Turn) → straight ts ≡ first_part (heard ts)
unfolding straight
straight-heard [] = refl
straight-heard (timer at ∷ ts) = straight-heard ts
straight-heard (next none ∷ ts) = refl
straight-heard (next (some e) ∷ ts) =
    ap (λ rest. if is_finalized e then e ∷ [] else e ∷ rest) (straight-heard ts)

module _ {O : Type 0} where
  -- What the callback for output does on these events.
  unfoldable pub outputs : (Stream → Text → List O) → List Event → List O
  outputs p [] = []
  outputs p (e ∷ es) = if_output p e ++ outputs p es

  module _ (emit : Text → Event → O) (g : JobId → List O) (p : Stream → Text → List O)
      (f : Outcome → List O) where
    abbrev callbacks : List (Event → List O)
    callbacks = if_created g ∷ if_output p ∷ if_finalized f ∷ []

    called-IsMerged :
        (job : JobId) (ds es : List Event)
        → IsMerged job ds es
        → deliver_all emit callbacks none ds ≡ deliver_all emit callbacks none es
    unfolding deliver_all deliver observed
    called-IsMerged job ds es none_left = refl
    called-IsMerged job ds es (real {e = e} {ds = ds'} {es = es'} m) =
        ap (λ os. deliver emit callbacks none e ++ os) (called-IsMerged job ds' es' m)
    called-IsMerged job ds es (synthetic x at {ds = ds'} {es = es'} m) =
        called-IsMerged job ds' es' m

    called_between :
        (job : JobId) (o : Outcome) (at : SystemTime) (mid rest : List Event)
        → are_between mid ≡ true
        → deliver_all emit callbacks none (first_part (mid ++ Event.finalized job o at ∷ rest))
          ≡ outputs p mid ++ f o
    unfolding deliver_all deliver observed outputs are_between
    called_between job o at [] rest b = append-nil _ ∙ append-nil _ ∙ append-nil (f o)
    called_between job o at (Event.output_appended j s line at' ∷ es) rest b =
        ap
          (λ os.
            os
            ++ deliver_all emit callbacks none (first_part (es ++ Event.finalized job o at ∷ rest)))
          (append-nil _ ∙ append-nil (p s line))
        ∙ ap (λ os. p s line ++ os) (called_between job o at es rest b)
        ∙ sym (append_assoc (p s line) (outputs p es) (f o))
    called_between job o at (Event.job_created j c at' ∷ es) rest b = ground arith
    called_between job o at (Event.finalized j o' at' ∷ es) rest b = ground arith
    called_between job o at (_ ∷ es) rest b = called_between job o at es rest b

    -- Each callback is called for what it is for: where the stream gives the creation of the job,
    -- events that are neither a creation nor a finalization, and then a finalization, a task with
    -- the callbacks for creation, output and finalization calls the first once, with the job, the
    -- second for each line of output, in order, and the last once, with the outcome, whatever
    -- comes after it. Synthetic progress, whenever the timer fires, changes nothing of this.
    pub forward_events-callbacks :
        {I : Type 0} (fl : Rounding) (creep : Option CreepFn) (c : Command I) (job : JobId)
        (spec : CommandSpec) (o : Outcome) (at at' : SystemTime) (mid rest : List Event)
        (ts : List Turn)
        → heard ts ≡ Event.job_created job spec at ∷ mid ++ Event.finalized job o at' ∷ rest
        → are_between mid ≡ true
        → forward_events emit fl job none
            (on_finalized f (on_output p (on_created g (task c)))).observers
            creep
            ts
          ≡ g job ++ outputs p mid ++ f o
    unfolding forward_events on_created on_output on_finalized observe
    forward_events-callbacks fl creep c job spec o at at' mid rest ts h b =
        called-IsMerged job _ _ (forward-IsMerged fl creep job ts)
        ∙ ap (deliver_all emit callbacks none) (straight-heard ts ∙ ap first_part h)
        ∙ ap
            (λ os.
              os
              ++ deliver_all emit callbacks none
                  (first_part (mid ++ Event.finalized job o at' ∷ rest)))
            (append-nil _ ∙ append-nil (g job))
        ∙ ap (λ os. g job ++ os) (called_between job o at' mid rest b)
        ∙ sym (append_assoc (g job) (outputs p mid) (f o))
