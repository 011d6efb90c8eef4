-- ===== src/Examples.antt =====
-- Runs of the models, and the theorems at concrete inputs.
mod Json
mod Network
mod Env
mod Upload
mod Progress
mod Http
mod Api
mod System
mod Loop
mod Live
mod Durable
mod Numbers
mod Containers
mod Logging
mod Broadcast
mod Program
mod Serve
mod Fifo
