-- ===== src/Lib.antt =====
-- A verification library for the Linux driver of the RME HDSPe sound cards
-- (sound/pci/hdsp/hdspe).
--
-- Ltc.antt models hdspe_ltc_math.c, the arithmetic of 32-bit linear time codes, with the driver's
-- names less the prefix hdspe_ltc32_; Ltc/Step.antt has its decr, incr and running. A code is a
-- natural number below 2 ^ 32, an int that can be negative is a ℤ. The theorems are about the codes
-- of a format (Ltc/Time.antt: decimal digits, a time of day, no dropped frame) at a frame rate of 1
-- to 40, with drop frames at 30 only; the specification is the frame number of a time of day
-- (Ltc/Frames.antt).
--
-- Device.antt has the parts of struct hdspe (hdspe_core.h) that the components share: cached
-- registers, and the list of register writes. Clock.antt and Clock/Dds.antt model hdspe_common.c:
-- frequency classes, speed modes, the DDS frequency synthesizer, pitch and the system sample rate,
-- up to hdspe_write_system_sample_rate, with hdspe_tco_set_app_sample_rate of hdspe_tco.c, which a
-- change of the frequency calls. The notifications to ALSA and the locks are not modelled there: each
-- function is one step on the state.
--
-- Pcm.antt models the stream timing of hdspe_pcm.c: period size, interrupt interval, hardware pointer
-- and frame count. The loop that counts the digits of a number of frames runs on fuel 32, one pass
-- for each bit of a u32. An undefined shift is the value none.
--
-- Mixer.antt models the gains of hdspe_mixer.c: the cache and the card's registers as functions, the
-- reads and writes, and the mixer elements that ALSA gets and puts; Mixer/Channels.antt has the loops
-- over all channels, which clear the mixer and mute what the channel maps do not use.
--
-- Tco.antt and the files in Tco/ model the Time Code Option of hdspe_tco.c. Tco.antt has the cached
-- registers, their fields and the writes; Tco/Controls.antt the controls that put a setting or carry a
-- time code; Tco/Mtc.antt the MIDI time code messages and the cache of 60 frame durations;
-- Tco/Period.antt the period interrupt, which reads the incoming time code, starts the outgoing one and
-- resets what the card has picked up, with the functions of Ltc.antt; Tco/Status.antt the status and the
-- notifications of changes. The kernel's clock, the
-- conversion of its time to hours, minutes and seconds, and the readings of the card are arguments.
--
-- Midi.antt models one port of hdspe_midi.c, with its part of the interrupt handler of hdspe_core.c.
-- What ALSA has to transmit and what the card's registers read are arguments. The loop that reads the
-- pending bytes runs on fuel 2, which is enough for the 255 bytes that the status can tell of; the loop
-- that flushes the input ends only if the card's FIFO becomes empty, and its fuel is an argument. The
-- buffers of a port that is not read-write go to Tco/Mtc.antt.
--
-- Cards.antt models the tables of the card models (hdspe_raio.c, hdspe_madi.c, hdspe_aes.c) with
-- hdspe_set_channel_map of hdspe_common.c and snd_hdspe_channel_info of hdspe_pcm.c, and
-- Cards/References.antt their AutoSync references, with the tables and the control of the preferred
-- reference in hdspe_control.c. Pcm/Streams.antt models the trigger, open and close of hdspe_pcm.c, and
-- Setup.antt snd_hdspe_hw_params and snd_hdspe_hw_free, where the clock, the channel maps, the mixer and
-- the stream timing meet; Setup/Rules.antt has the rules by which ALSA narrows rates and channels. What
-- ALSA asks for, the memory that it allocates and its operations on intervals are arguments.
-- Cards/Status.antt, Cards/Status/Registers.antt and Cards/Status/Read.antt model struct hdspe_status,
-- the registers' bits and the read_status methods of the three card drivers. Polling.antt models the
-- polling of the status in hdspe_control.c, with the MADI's detection of changes and the interrupt
-- handler's scheduling.
--
-- Controls.antt models the controls of hdspe_control.c that stand for a field of a register: the getters
-- and putters that the macros of hdspe_control.h make, hdspe_control_put, the table of each card model,
-- the clock mode and sample format of the card drivers, and the output level of the AIO Pro, which
-- Controls/Card.antt adds to the AIO Pro's table. Controls/Shown.antt names the field of struct
-- hdspe_status in which the read_status of Cards/Status/Read.antt tells of a control. A register
-- is a number and a field its bits, with Common/Bits/Fields.antt. Controls/Property.antt says what a
-- getter and a putter promise to hdspe_control_put. Clock/Dds/Put.antt has the control of the internal
-- frequency.
--
-- Driver.antt models the register cache of hdspe_core.h and what starts and stops the interrupts in
-- hdspe_core.c. Driver/Ports.antt has the tables of the MIDI ports of the card models, which
-- hdspe_init_midi of hdspe_midi.c sets up. Driver/Interrupt.antt is snd_hdspe_interrupt, where the
-- stream, the TCO, the polling and the MIDI ports meet, and hdspe_midi_work, which it queues.
-- Driver/Lifecycle.antt is what the driver acquires and releases: create, probe, free, suspend and
-- resume. The results of the kernel's functions are arguments, and what C leaves undefined or the kernel
-- forbids, a write through a null address or a second free, is the value none. Driver/Identity.antt has
-- the model and the serial number of a card, and Driver/Init.antt the registers that hdspe_init and the
-- init functions of the card drivers set.
--
-- Hwdep.antt models the ioctl requests of hdspe_hwdep.c: their results, the level meters of 64 channels
-- and the configuration.
--
-- Common.antt and the files in Common/ have what the components share: Boolean tests, int as ℤ,
-- shifts, masks, single bits and bit fields, the remainder that is never negative, division by a
-- quotient, and checks of all values of a small range. Not modelled are the text output of
-- hdspe_proc.c, the texts of the controls and their creation, and the interfaces to the kernel.
pub mod Common
pub mod Cards
pub mod Clock
pub mod Controls
pub mod Device
pub mod Driver
pub mod Hwdep
pub mod Ltc
pub mod Midi
pub mod Mixer
pub mod Pcm
pub mod Polling
pub mod Setup
pub mod Tco
