-- ===== src/Thread.antt =====
-- bingo/thread: queues that one or many worker threads read.
pub mod ManyToOne
pub mod ManyToMany
