-- ===== src/Controller/Worker/Runs.antt =====
-- What a worker of controller.go does from its start to the end of the queue.
